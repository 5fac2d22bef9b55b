-- ===== src/Log/Logfmt/RoundTrip.antt =====
-- A printer that `scan_logfmt` of log.rs inverts: a value stands bare where it holds no byte that ends it, and
-- otherwise in quotes, with the escapes that the scanner decodes and no other. It is not the printer of
-- logrus, which escapes more than the scanner decodes.
use mathlib.Core.List.{append_assoc, append-nil}
use chimera_service.Base.{
  ℕ, zero, suc, ◌+◌, ◌≤◌, ◌≡◌, refl, sym, ap, ◌∙◌, Bool, true, inl, inr, Option, some, List, [],
  ◌∷◌, ◌++◌, arith, ◌==◌, ◌&&◌, ◌||◌, not, if◌then◌else◌, Bool-cases, length, length-append,
}
use chimera_service.Base.Text.{Bytes}
use chimera_service.Log.Logfmt.{
  is_space, skip_spaces, scan_key, scan_quoted, scan_bare, ended, scan_value, scan_fields,
  scan_logfmt, ◌>>=◌,
}

-- the escape of a byte in a quoted value
abbrev pub escaped : ℕ → Bytes
escaped b =
    if b == b'"' || b == b'\\'
    then b'\\' ∷ b ∷ []
    else if b == b'\n'
    then b'\\' ∷ b'n' ∷ []
    else if b == b'\r'
    then b'\\' ∷ b'r' ∷ []
    else if b == b'\t'
    then b'\\' ∷ b't' ∷ []
    else b ∷ []

unfoldable pub escape_all : Bytes → Bytes
escape_all [] = []
escape_all (b ∷ bs) = escaped b ++ escape_all bs

-- a byte of a key or a bare value
abbrev pub is_plain : ℕ → Bool
is_plain b = not (is_space b || b == b'=' || b == b'"')

unfoldable pub all_plain : Bytes → Bool
all_plain [] = true
all_plain (b ∷ bs) = is_plain b && all_plain bs

unfoldable pub print_value : Bytes → Bytes
unfolding all_plain escape_all
print_value value = if all_plain value then value else b'"' ∷ (escape_all value ++ b'"' ∷ [])

-- fields are set apart by one space
unfoldable pub print_fields : List (Bytes × Bytes) → Bytes
unfolding print_value
print_fields [] = []
print_fields ((key, value) ∷ []) = key ++ b'=' ∷ print_value value
print_fields ((key, value) ∷ next ∷ fields) =
    key ++ b'=' ∷ (print_value value ++ b' ' ∷ print_fields (next ∷ fields))

-- a key has a byte, and all its bytes are plain
abbrev pub IsKey : Bytes → Type 0
IsKey [] = ⊥
IsKey (b ∷ key) = all_plain (b ∷ key) ≡ true

abbrev pub AllKeys : List (Bytes × Bytes) → Type 0
AllKeys [] = Unit
AllKeys ((key, value) ∷ fields) = IsKey key × AllKeys fields

scan_key-append :
    (key rest : Bytes) → all_plain key ≡ true → scan_key (key ++ b'=' ∷ rest) ≡ some (key, rest)
unfolding scan_key all_plain
scan_key-append [] rest h = refl
scan_key-append (b ∷ key) rest h =
    rw (scan_key-append key rest (ground (arith, h))) (ground (arith, h))

-- what may stand behind a value
abbrev IsEnd : Bytes → Type 0
IsEnd [] = Unit
IsEnd (b ∷ bs) = is_space b ≡ true

scan_bare-append :
    (value rest : Bytes)
    → all_plain value ≡ true
    → IsEnd rest
    → scan_bare (value ++ rest) ≡ (value, rest)
unfolding scan_bare all_plain
scan_bare-append [] [] h e = refl
scan_bare-append [] (b ∷ rest) h e = rw e refl
scan_bare-append (b ∷ value) rest h e =
    rw (scan_bare-append value rest (ground (arith, h)) e) (ground (arith, h))

scan_quoted-escaped :
    (b : ℕ) (text : Bytes) (value rest : Bytes)
    → scan_quoted text ≡ some (value, rest)
    → scan_quoted (escaped b ++ text) ≡ some (b ∷ value, rest)
unfolding scan_quoted
scan_quoted-escaped b [] value rest h = cc
scan_quoted-escaped b (c ∷ text) value rest h = ground (arith, h)

scan_quoted-escape_all :
    (value rest : Bytes) → scan_quoted (escape_all value ++ b'"' ∷ rest) ≡ some (value, rest)
unfolding escape_all
scan_quoted-escape_all [] [] = unfold scan_quoted in refl
scan_quoted-escape_all [] (b ∷ rest) = unfold scan_quoted in refl
scan_quoted-escape_all (b ∷ value) rest =
    ap scan_quoted (append_assoc (escaped b) (escape_all value) (b'"' ∷ rest))
    ∙ scan_quoted-escaped b (escape_all value ++ b'"' ∷ rest) value rest
        (scan_quoted-escape_all value rest)

ended-IsEnd : (value rest : Bytes) → IsEnd rest → ended (value, rest) ≡ some (value, rest)
ended-IsEnd value [] e = refl
ended-IsEnd value (b ∷ rest) e = rw e refl

scan_value-bare :
    (value rest : Bytes)
    → all_plain value ≡ true
    → IsEnd rest
    → scan_value (value ++ rest) ≡ some (value, rest)
unfolding scan_value all_plain
scan_value-bare [] [] h e = refl
scan_value-bare [] (b ∷ rest) h e = rw (scan_bare-append [] (b ∷ rest) refl e) (ground (arith, e))
scan_value-bare (b ∷ value) rest h e =
    rw (scan_bare-append (b ∷ value) rest h e) (ground (arith, h))

scan_value-print_value :
    (value rest : Bytes) → IsEnd rest → scan_value (print_value value ++ rest) ≡ some (value, rest)
unfolding print_value
scan_value-print_value value rest e = elim (Bool-cases (all_plain value)) [
  | inl plain ↦ rw plain (scan_value-bare value rest plain e)
  | inr special ↦ rw special (
      ap (λ t. scan_value (b'"' ∷ t)) (append_assoc (escape_all value) (b'"' ∷ []) rest)
      ∙ unfold scan_value in
        (ap (λ r. r >>= ended) (scan_quoted-escape_all value rest) ∙ ended-IsEnd value rest e))
]

abbrev with_field : Bytes → Bytes → Option (List (Bytes × Bytes)) → Option (List (Bytes × Bytes))
with_field key value r = r >>= λ fields. some ((key, value) ∷ fields)

scan_fields-cons :
    (fuel : ℕ) (key value rest : Bytes)
    → IsKey key
    → IsEnd rest
    → scan_fields (suc fuel) (key ++ b'=' ∷ (print_value value ++ rest))
      ≡ with_field key value (scan_fields fuel (skip_spaces rest))
unfolding scan_fields
scan_fields-cons fuel [] value rest k e = absurd k
scan_fields-cons fuel (b ∷ key) value rest k e =
    rw
      (scan_key-append (b ∷ key) (print_value value ++ rest) k, scan_value-print_value value rest e)
      refl

skip_spaces-key : (key rest : Bytes) → IsKey key → skip_spaces (key ++ rest) ≡ key ++ rest
unfolding skip_spaces all_plain
skip_spaces-key [] rest k = absurd k
skip_spaces-key (b ∷ key) rest k = ground (arith, k)

skip_spaces-blank : (text : Bytes) → skip_spaces (b' ' ∷ text) ≡ skip_spaces text
unfolding skip_spaces
skip_spaces-blank text = refl

skip_spaces-print_fields :
    (fields : List (Bytes × Bytes))
    → AllKeys fields
    → skip_spaces (print_fields fields) ≡ print_fields fields
unfolding print_fields
skip_spaces-print_fields [] h = unfold skip_spaces in refl
skip_spaces-print_fields ((key, value) ∷ []) h = skip_spaces-key key _ h.0
skip_spaces-print_fields ((key, value) ∷ next ∷ fields) h = skip_spaces-key key _ h.0

scan_fields-print_fields :
    (fields : List (Bytes × Bytes)) (fuel : ℕ)
    → AllKeys fields
    → length fields ≤ fuel
    → scan_fields fuel (print_fields fields) ≡ some fields
unfolding print_fields
scan_fields-print_fields [] fuel h l = unfold scan_fields in refl
scan_fields-print_fields (f ∷ fields) zero h l = absurd (omega (arith, l))
scan_fields-print_fields ((key, value) ∷ []) (suc fuel) h l =
    ap (λ t. scan_fields (suc fuel) (key ++ b'=' ∷ t)) (sym (append-nil (print_value value)))
    ∙ scan_fields-cons fuel key value [] h.0 tt
    ∙ unfold scan_fields skip_spaces in refl
scan_fields-print_fields ((key, value) ∷ next ∷ fields) (suc fuel) h l =
    scan_fields-cons fuel key value (b' ' ∷ print_fields (next ∷ fields)) h.0 refl
    ∙ ap (λ t. with_field key value (scan_fields fuel t))
        (skip_spaces-blank (print_fields (next ∷ fields))
          ∙ skip_spaces-print_fields (next ∷ fields) h.1)
    ∙ ap (with_field key value)
        (scan_fields-print_fields (next ∷ fields) fuel h.1 (omega (arith, l)))

length-le-print_fields :
    (fields : List (Bytes × Bytes)) → length fields ≤ length (print_fields fields)
unfolding print_fields
length-le-print_fields [] = omega arith
length-le-print_fields ((key, value) ∷ []) =
    omega (arith, length-append key (b'=' ∷ print_value value))
length-le-print_fields ((key, value) ∷ next ∷ fields) = omega (
  arith,
  length-le-print_fields (next ∷ fields),
  length-append key (b'=' ∷ (print_value value ++ b' ' ∷ print_fields (next ∷ fields))),
  length-append (print_value value) (b' ' ∷ print_fields (next ∷ fields)),
)

-- Fields with keys of plain bytes and values of any bytes, printed with one space between them, a value bare or
-- quoted with only quotes, backslashes, line feeds, returns and tabs escaped, are scanned back: the same pairs in the same
-- order.
pub scan_logfmt-print_fields :
    (fields : List (Bytes × Bytes))
    → AllKeys fields
    → scan_logfmt (print_fields fields) ≡ some fields
unfolding scan_logfmt
scan_logfmt-print_fields fields h =
    ap (scan_fields (length (print_fields fields) + 1)) (skip_spaces-print_fields fields h)
    ∙ scan_fields-print_fields fields (length (print_fields fields) + 1) h
        (omega (arith, length-le-print_fields fields))
