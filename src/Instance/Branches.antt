-- ===== src/Instance/Branches.antt =====
-- What holds of the monitor of instance.rs after a branch that takes observations from the channel.
use chimera_service.Instance.Kept.{
  AllBelow, IsSilent, IsSilent-rest, IsSilent-nil, apply-silent, drain-silent, apply-Drains,
  drain-Drains,
}
use chimera_service.Instance.Invariant.{IsValid, Steps, drained-IsValid}
use chimera_service.Instance.{Settings, ProbeObservation, Monitor}
use chimera_service.Instance.Reconcile.{Acknowledgement, apply, drain}
use chimera_service.Instance.Loop.{
  give_up, on_initial_deadline, on_respawn_deadline, on_observation,
}
use chimera_service.Base.{
  ℕ, suc, ◌≡◌, refl, ◌∙◌, inl, inr, false, List, [], ◌∷◌, arith, subst, is_some, ◌||◌, Bool-cases,
  not,
}

-- the channel is drained: what holds still holds, and no run has started
drain-Steps :
    (c : Settings) (acks : ℕ → Acknowledgement) (m : Monitor)
    → IsValid m
    → m.ended ≡ false
    → Steps m (drain c acks m.observations m).0
drain-Steps c acks m v live = elim (Bool-cases m.probes_cancelled) [
  | inl p ↦ rw (drain-silent c acks m.observations m (v.silent p)) (record {
    valid = record {
      terminal = v.terminal;
      below = tt;
      driver = v.driver;
      cancelled = v.cancelled;
      undriven = v.undriven;
      silent = λ q. IsSilent-nil m.current;
    };
    next = omega arith;
  })
  | inr p ↦
      let d =
        drain-Drains c acks (suc m.next_run_id) m.observations m v.below (v.terminal ∙ live) in
      record {
        valid = drained-IsValid m (drain c acks m.observations m).0 v p d live;
        next = omega (arith, d.next);
      }
]

give_up-IsValid : (m : Monitor) → IsValid m → IsValid (give_up m)
give_up-IsValid m v = record {
  terminal = v.terminal;
  below = v.below;
  driver = omega arith;
  cancelled = λ p. refl;
  undriven = λ p. refl;
  silent = λ p. tt;
}

pub on_initial_deadline-Steps :
    (c : Settings) (acks : ℕ → Acknowledgement) (m : Monitor)
    → IsValid m
    → m.ended ≡ false
    → Steps m (on_initial_deadline c acks m)
unfolding on_initial_deadline
on_initial_deadline-Steps c acks m v live =
    let drained = drain c acks m.observations m in
    let d = drain-Steps c acks m v live in
    let missed = give_up-IsValid drained.0 d.valid in
    elim (Bool-cases (m.ever_ready || m.timeout_fired)) [
      | inl h ↦ rw h (record { valid = v; next = omega arith })
      | inr h ↦ elim (Bool-cases (drained.1 || drained.0.ever_ready)) [
        | inl g ↦ rw h rw g d
        | inr g ↦ rw h rw g (record {
          valid = record {
            terminal = missed.terminal;
            below = missed.below;
            driver = missed.driver;
            cancelled = missed.cancelled;
            undriven = missed.undriven;
            silent = missed.silent;
          };
          next = d.next;
        })
      ]
    ]

pub on_respawn_deadline-Steps :
    (c : Settings) (acks : ℕ → Acknowledgement) (m : Monitor)
    → IsValid m
    → m.ended ≡ false
    → Steps m (on_respawn_deadline c acks m)
unfolding on_respawn_deadline
on_respawn_deadline-Steps c acks m v live =
    let drained = drain c acks m.observations m in
    let d = drain-Steps c acks m v live in
    elim (Bool-cases (not (is_some m.respawn_deadline))) [
      | inl h ↦ rw h (record { valid = v; next = omega arith })
      | inr h ↦ elim (Bool-cases (drained.1 || not (is_some drained.0.respawn_deadline))) [
        | inl g ↦ rw h rw g d
        | inr g ↦ rw h rw g (record { valid = give_up-IsValid drained.0 d.valid; next = d.next })
      ]
    ]

pub on_observation-Steps :
    (c : Settings) (a : Acknowledgement) (os : List ProbeObservation) (m : Monitor)
    → m.observations ≡ os
    → IsValid m
    → m.ended ≡ false
    → Steps m (on_observation c a os m)
unfolding on_observation
on_observation-Steps c a [] m q v live = record { valid = v; next = omega arith }
on_observation-Steps c a (o ∷ os) m q v live =
    let m1 = record m { observations = os } in
    let below : AllBelow (suc m.next_run_id) (o ∷ os) =
      subst (AllBelow (suc m.next_run_id)) q v.below in
    elim (Bool-cases m.probes_cancelled) [
      | inl p ↦
          let s : IsSilent m.current (o ∷ os) = subst (IsSilent m.current) q (v.silent p) in
          rw (on_observation, apply-silent c a o os m1 s)
            (record {
              valid = record {
                terminal = v.terminal;
                below = below.1;
                driver = v.driver;
                cancelled = v.cancelled;
                undriven = v.undriven;
                silent = λ r. IsSilent-rest m.current o os s;
              };
              next = omega arith;
            })
      | inr p ↦
          let d = apply-Drains c a (suc m.next_run_id) o os m below.1 (v.terminal ∙ live) in
          record {
            valid = drained-IsValid m (apply c a o m1).0 v p d live;
            next = omega (arith, d.next);
          }
    ]
