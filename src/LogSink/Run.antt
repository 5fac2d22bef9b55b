-- ===== src/LogSink/Run.antt =====
-- The task of the archive (`run` and `drain` of log_sink.rs): batches of the frames that the channel
-- holds, until the channel is closed, or until it is drained after a cancellation.
use mathlib.Core.List.{append_assoc}
use chimera_service.Base.{
  ℕ, zero, suc, ◌≤◌, ◌<◌, ◌≡◌, refl, sym, ap, ◌∙◌, inl, inr, Bool, true, false, Option, none, some,
  List, [], ◌∷◌, ◌++◌, arith, ltb, ◌||◌, ◌&&◌, ◌⊎◌, if◌then◌else◌, Bool-cases, length,
  length-append,
}
use chimera_service.LogSink.{Entry}

abbrev pub max_batch_records : ℕ
max_batch_records = 256

-- the entries taken from the channel and those that it still has, and whether it was found closed; an
-- entry is a frame, or the number of frames that the channel dropped
pub record Drained : Type 0 where
  pub batch : List Entry
  pub rest : List Entry
  pub closed : Bool

-- `drain`; `try_recv` on an empty channel tells whether it is closed
unfoldable pub drain : (queue : List Entry) → (closed : Bool) → (batch : List Entry) → Drained
drain [] closed batch = record {
  batch = batch;
  rest = [];
  closed = if ltb (length batch) max_batch_records then closed else false;
}
drain (e ∷ es) closed batch =
    if ltb (length batch) max_batch_records
    then drain es closed (batch ++ e ∷ [])
    else record { batch = batch; rest = e ∷ es; closed = false }

-- the batches of the task and what it leaves in the channel
pub record Batches : Type 0 where
  pub batches : List (List Entry)
  pub rest : List Entry

abbrev pub with_batch : List Entry → Option Batches → Option Batches
with_batch batch none = none
with_batch batch (some o) = some (record { batches = batch ∷ o.batches; rest = o.rest })

-- the batch that a round starts from and whether it was the last one, where `recv` answered
unfoldable pub received : (queue : List Entry) → (closed : Bool) → Drained × Bool
unfolding drain
received [] closed = (record { batch = []; rest = []; closed = closed }, true)
received (e ∷ es) closed = let d = drain es closed (e ∷ []) in (d, d.closed)

unfoldable pub cancelled : (queue : List Entry) → (closed : Bool) → Drained × Bool
unfolding drain
cancelled queue closed =
    let d = drain queue closed [] in (d, d.closed || ltb (length d.batch) max_batch_records)

-- `recv` has an answer: an entry, or that the channel is closed
abbrev pub is_ready : List Entry → Bool → Bool
is_ready [] closed = closed
is_ready (_ ∷ _) closed = true

-- a round of `run` once the token is cancelled: `select!` may take either branch that is ready
unfoldable pub run_round :
    (takes_recv : Bool) → (queue : List Entry) → (closed : Bool) → Drained × Bool
unfolding received cancelled
run_round takes_recv queue closed =
    if takes_recv && is_ready queue closed then received queue closed else cancelled queue closed

-- the rounds of `run` once the token is cancelled and no more is sent; `none` is out of fuel
unfoldable pub run_after_cancel :
    (fuel : ℕ) → (picks : ℕ → Bool) → (queue : List Entry) → (closed : Bool) → Option Batches
unfolding run_round
run_after_cancel zero picks queue closed = none
run_after_cancel (suc fuel) picks queue closed =
    let round = run_round (picks fuel) queue closed in
    let after = run_after_cancel fuel picks round.0.rest closed in
    with_batch round.0.batch
      (if round.1 then some (record { batches = []; rest = round.0.rest }) else after)

unfoldable pub concat : List (List Entry) → List Entry
concat [] = []
concat (xs ∷ xss) = xs ++ concat xss

-- A drain loses nothing, keeps the order, and does not grow the batch past its limit; what it leaves it
-- leaves because the batch is full.
record IsDrain (queue batch : List Entry) (d : Drained) : Type 0 where
  pub split : d.batch ++ d.rest ≡ batch ++ queue
  pub bounded : length batch ≤ max_batch_records → length d.batch ≤ max_batch_records
  pub last : d.closed ≡ true → d.rest ≡ []
  pub full : (d.rest ≡ []) ⊎ (max_batch_records ≤ length d.batch)
  pub grows : length batch ≤ length d.batch

drain-IsDrain :
    (queue : List Entry) (closed : Bool) (batch : List Entry)
    → IsDrain queue batch (drain queue closed batch)
unfolding drain
drain-IsDrain [] closed batch = record {
  split = refl;
  bounded = λ h. h;
  last = λ c. refl;
  full = inl refl;
  grows = omega arith;
}
drain-IsDrain (e ∷ es) closed batch = elim (Bool-cases (ltb (length batch) max_batch_records)) [
  | inl more ↦ rw more (
      let d = drain-IsDrain es closed (batch ++ e ∷ []) in
      record {
        split = d.split ∙ append_assoc batch (e ∷ []) es;
        bounded = λ h. d.bounded (ground (arith, more, length-append batch (e ∷ [])));
        last = d.last;
        full = d.full;
        grows = omega (arith, d.grows, length-append batch (e ∷ []));
      })
  | inr full ↦ rw full (record {
    split = refl;
    bounded = λ h. h;
    last = λ c. cc;
    full = inr (ground (arith, full));
    grows = omega arith;
  })
]

-- A round writes the front of what is queued, at most 256 records; it is the last one only if nothing
-- is left, and otherwise something was queued, and written.
record IsRound (queue : List Entry) (round : Drained × Bool) : Type 0 where
  pub split : round.0.batch ++ round.0.rest ≡ queue
  pub bounded : length round.0.batch ≤ max_batch_records
  pub last : round.1 ≡ true → round.0.rest ≡ []
  pub shorter : round.1 ≡ false → length round.0.rest < length queue

received-IsRound : (queue : List Entry) (closed : Bool) → IsRound queue (received queue closed)
unfolding received
received-IsRound [] closed = record {
  split = refl;
  bounded = omega arith;
  last = λ h. refl;
  shorter = λ h. cc;
}
received-IsRound (e ∷ es) closed =
    let d = drain-IsDrain es closed (e ∷ []) in
    record {
      split = d.split;
      bounded = d.bounded (omega arith);
      last = d.last;
      shorter = λ h.
          let r = drain es closed (e ∷ []) in
          omega (arith, d.grows, ap length d.split, length-append r.batch r.rest);
    }

cancelled-IsRound : (queue : List Entry) (closed : Bool) → IsRound queue (cancelled queue closed)
unfolding cancelled
cancelled-IsRound queue closed =
    let d = drain-IsDrain queue closed [] in
    record {
      split = d.split;
      bounded = d.bounded (omega arith);
      last = λ h. elim d.full [ inl done ↦ done | inr full ↦ d.last (ground (arith, full, h)) ];
      shorter = λ h.
          let r = drain queue closed [] in
          ground (arith, h, ap length d.split, length-append r.batch r.rest);
    }

run_round-IsRound :
    (takes_recv : Bool) (queue : List Entry) (closed : Bool)
    → IsRound queue (run_round takes_recv queue closed)
unfolding run_round
run_round-IsRound takes_recv queue closed =
    elim (Bool-cases (takes_recv && is_ready queue closed)) [
      | inl e ↦ rw e (received-IsRound queue closed)
      | inr e ↦ rw e (cancelled-IsRound queue closed)
    ]

abbrev pub AllShort : List (List Entry) → Type 0
AllShort [] = Unit
AllShort (batch ∷ batches) = (length batch ≤ max_batch_records) × AllShort batches

-- The writer ends, and what was queued has been written.
pub record IsFlushed (queue : List Entry) (r : Option Batches) : Type 0 where
  pub outcome : Batches
  pub ends : r ≡ some outcome
  pub complete : concat outcome.batches ≡ queue
  pub short : AllShort outcome.batches

add_batch :
    (queue batch rest : List Entry) (r : Option Batches)
    → batch ++ rest ≡ queue
    → length batch ≤ max_batch_records
    → IsFlushed rest r
    → IsFlushed queue (with_batch batch r)
unfolding concat
add_batch queue batch rest r p h f = record {
  outcome = record { batches = batch ∷ f.outcome.batches; rest = f.outcome.rest };
  ends = ap (with_batch batch) f.ends;
  complete = ap (λ t. batch ++ t) f.complete ∙ p;
  short = (h, f.short);
}

-- Once the writer is cancelled and no more is sent, it ends, whichever branch `select!` takes in each round:
-- a round of fuel for each entry that is queued and one more are enough. Its batches are what was queued,
-- each entry once and in order, at most 256 to a batch.
pub run_after_cancel-IsFlushed :
    (fuel : ℕ) (picks : ℕ → Bool) (queue : List Entry) (closed : Bool)
    → length queue < fuel
    → IsFlushed queue (run_after_cancel fuel picks queue closed)
unfolding run_after_cancel concat
run_after_cancel-IsFlushed zero picks queue closed h = absurd (omega arith)
run_after_cancel-IsFlushed (suc fuel) picks queue closed h =
    let round = run_round (picks fuel) queue closed in
    let r = run_round-IsRound (picks fuel) queue closed in
    elim (Bool-cases round.1) [
      | inl last ↦ rw last (
          add_batch queue round.0.batch round.0.rest
            (some (record { batches = []; rest = round.0.rest })) r.split r.bounded
            (record {
              outcome = record { batches = []; rest = round.0.rest };
              ends = refl;
              complete = sym (r.last last);
              short = tt;
            }))
      | inr more ↦ rw more (
          add_batch queue round.0.batch round.0.rest
            (run_after_cancel fuel picks round.0.rest closed) r.split r.bounded
            (run_after_cancel-IsFlushed fuel picks round.0.rest closed
              (omega (arith, r.shorter more))))
    ]
