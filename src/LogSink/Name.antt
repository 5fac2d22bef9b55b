-- ===== src/LogSink/Name.antt =====
-- The names of the archive's files (`file_name` and `file_seq` of log_sink.rs): `core-` and `.jsonl` round
-- the number, padded to six digits.
use chimera_service.Base.{
  ℕ, zero, suc, ◌+◌, ◌-◌, ◌*◌, ◌/◌, ◌%◌, ◌≤◌, ◌<◌, ◌≡◌, refl, ap, ◌∙◌, ◌≢◌, inl, inr, Bool, true,
  false, Option, none, some, [], ◌∷◌, ◌++◌, arith, ltb, leb, ◌==◌, ◌&&◌, if◌then◌else◌, Bool-cases,
  length, length-append, u64_max, replicate, all,
}
use chimera_service.Base.Text.{Bytes, codes}

abbrev pub file_prefix : Bytes
file_prefix = codes "core-"

abbrev pub file_suffix : Bytes
file_suffix = codes ".jsonl"

-- the decimal digits of a number, before those that are there; a u64 has at most twenty
unfoldable pub digits : (fuel : ℕ) → ℕ → Bytes → Bytes
digits zero n out = out
digits (suc fuel) n out =
    let more = digits fuel (n / 10) ((b'0' + n % 10) ∷ out) in
    if ltb n 10 then (b'0' + n) ∷ out else more

abbrev pub u64_digits : ℕ
u64_digits = 20

-- `{seq:06}`
unfoldable pub padded : ℕ → Bytes
unfolding digits
padded seq = let text = digits u64_digits seq [] in replicate (6 - length text) b'0' ++ text

unfoldable pub file_name : ℕ → Bytes
unfolding padded
file_name seq = file_prefix ++ (padded seq ++ file_suffix)

-- `str::strip_prefix`
unfoldable pub strip_prefix : Bytes → Bytes → Option Bytes
strip_prefix [] text = some text
strip_prefix (p ∷ ps) [] = none
strip_prefix (p ∷ ps) (b ∷ bs) = if p == b then strip_prefix ps bs else none

-- `text` is `suffix`
unfoldable pub is_text : Bytes → Bytes → Bool
is_text [] [] = true
is_text (a ∷ as') (b ∷ bs) = a == b && is_text as' bs
is_text _ _ = false

abbrev pub prepend : ℕ → Option Bytes → Option Bytes
prepend b none = none
prepend b (some bs) = some (b ∷ bs)

-- `str::strip_suffix`
unfoldable pub strip_suffix : Bytes → Bytes → Option Bytes
unfolding is_text
strip_suffix suffix [] = if is_text suffix [] then some [] else none
strip_suffix suffix (b ∷ bs) =
    let rest = strip_suffix suffix bs in if is_text suffix (b ∷ bs) then some [] else prepend b rest

abbrev pub is_ascii_digit : ℕ → Bool
is_ascii_digit b = leb b'0' b && leb b b'9'

-- `str::parse` of a u64, on digits
unfoldable pub parse_u64 : Bytes → ℕ → Option ℕ
parse_u64 [] n = some n
parse_u64 (b ∷ bs) n = let m = n * 10 + (b - b'0') in if leb m u64_max then parse_u64 bs m else none

unfoldable pub digits_seq : Bytes → Option ℕ
unfolding parse_u64
digits_seq [] = none
digits_seq (b ∷ bs) = if all is_ascii_digit (b ∷ bs) then parse_u64 (b ∷ bs) 0 else none

infixl 5 ◌>>=◌
abbrev pub ◌>>=◌ : {A B : Type 0} → Option A → (A → Option B) → Option B
none >>= f = none
some a >>= f = f a

unfoldable pub file_seq : Bytes → Option ℕ
unfolding strip_prefix strip_suffix digits_seq
file_seq name = do
  rest ← strip_prefix file_prefix name
  text ← strip_suffix file_suffix rest
  digits_seq text

abbrev AllDigits : Bytes → Type 0
AllDigits [] = Unit
AllDigits (b ∷ bs) = ((b'0' ≤ b) × (b ≤ b'9')) × AllDigits bs

abbrev pow10 : ℕ → ℕ
pow10 zero = 1
pow10 (suc f) = 10 * pow10 f

digits-AllDigits : (fuel n : ℕ) (out : Bytes) → AllDigits out → AllDigits (digits fuel n out)
unfolding digits
digits-AllDigits zero n out h = h
digits-AllDigits (suc fuel) n out h = elim (Bool-cases (ltb n 10)) [
  | inl e ↦ rw e (ground (arith, e), h)
  | inr e ↦ rw e (digits-AllDigits fuel (n / 10) ((b'0' + n % 10) ∷ out) (omega arith, h))
]

zeros-AllDigits : (k : ℕ) (text : Bytes) → AllDigits text → AllDigits (replicate k b'0' ++ text)
zeros-AllDigits zero text h = h
zeros-AllDigits (suc k) text h = (omega arith, zeros-AllDigits k text h)

padded-AllDigits : (n : ℕ) → AllDigits (padded n)
unfolding padded
padded-AllDigits n =
    let text = digits u64_digits n [] in
    zeros-AllDigits (6 - length text) text (digits-AllDigits u64_digits n [] tt)

all-AllDigits : (text : Bytes) → AllDigits text → all is_ascii_digit text ≡ true
all-AllDigits [] h = refl
all-AllDigits (b ∷ bs) h = ground (arith, h, all-AllDigits bs h.1)

-- No text of digits starts with the suffix.
strip_suffix-append :
    (text : Bytes) → AllDigits text → strip_suffix file_suffix (text ++ file_suffix) ≡ some text
unfolding strip_suffix
strip_suffix-append [] h = refl
strip_suffix-append (b ∷ bs) h = rw (strip_suffix-append bs h.1) (ground (arith, h.0))

-- reading a print goes on as from the number itself
parse_u64-digits :
    (fuel n : ℕ) (out : Bytes)
    → n < pow10 fuel
    → n ≤ u64_max
    → parse_u64 (digits fuel n out) 0 ≡ parse_u64 out n
unfolding digits parse_u64
parse_u64-digits zero n out h k = ap (parse_u64 out) (omega arith)
parse_u64-digits (suc fuel) n out h k = elim (Bool-cases (ltb n 10)) [
  | inl e ↦ rw e (ground arith)
  | inr e ↦ rw e (
      parse_u64-digits fuel (n / 10) ((b'0' + n % 10) ∷ out) (omega (arith, h)) (omega arith)
      ∙ ground arith)
]

parse_u64-zeros : (k : ℕ) (text : Bytes) → parse_u64 (replicate k b'0' ++ text) 0 ≡ parse_u64 text 0
unfolding parse_u64
parse_u64-zeros zero text = refl
parse_u64-zeros (suc k) text = parse_u64-zeros k text

parse_u64-padded : (n : ℕ) → n ≤ u64_max → parse_u64 (padded n) 0 ≡ some n
unfolding padded
parse_u64-padded n h =
    let text = digits u64_digits n [] in
    parse_u64-zeros (6 - length text) text
    ∙ parse_u64-digits u64_digits n [] (omega arith) h
    ∙ unfold parse_u64 in refl

digits_seq_lem :
    (text : Bytes) (n : ℕ)
    → AllDigits text
    → parse_u64 text 0 ≡ some n
    → text ≢ []
    → digits_seq text ≡ some n
unfolding digits_seq
digits_seq_lem [] n h p ne = absurd (ne refl)
digits_seq_lem (b ∷ bs) n h p ne = rw (all-AllDigits (b ∷ bs) h) p

length-zeros : (k : ℕ) → length {A = ℕ} (replicate k b'0') ≡ k
length-zeros zero = refl
length-zeros (suc k) = ap suc (length-zeros k)

padded-ne-nil : (n : ℕ) → padded n ≢ []
unfolding padded
padded-ne-nil n e =
    let text = digits u64_digits n [] in
    absurd (
      omega (
        arith,
        ap length e,
        length-append (replicate (6 - length text) b'0') text,
        length-zeros (6 - length text),
      ))

-- Every number of a file, up to the greatest u64, is read back from the file's name.
pub file_seq-file_name : (seq : ℕ) → seq ≤ u64_max → file_seq (file_name seq) ≡ some seq
unfolding file_seq file_name
file_seq-file_name seq h = rw (strip_suffix-append (padded seq) (padded-AllDigits seq)) (
    digits_seq_lem (padded seq) seq (padded-AllDigits seq) (parse_u64-padded seq h)
      (padded-ne-nil seq))
