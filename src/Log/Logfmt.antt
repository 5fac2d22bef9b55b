-- ===== src/Log/Logfmt.antt =====
-- The scanner of logrus' logfmt (`scan_logfmt` and `parse_mihomo` of log.rs, crates/chimera-core-manager). A
-- line is its UTF-8 bytes; the scanner cuts at ASCII bytes, so what it cuts out is UTF-8 too.
pub mod RoundTrip
use chimera_service.Base.{
  ℕ, zero, suc, ◌+◌, ◌≡◌, refl, Bool, false, Option, none, some, List, [], ◌∷◌, ◌++◌, ◌==◌, ◌||◌,
  if◌then◌else◌, length,
}
use chimera_service.Base.Text.{bytes_eq, Bytes, codes}
use chimera_service.Log.Frame.{LogLevel, LogField, LogTimestamp}
use chimera_service.Log.Ansi.{parse_level}

infixl 5 ◌>>=◌
abbrev pub ◌>>=◌ : {A B : Type 0} → Option A → (A → Option B) → Option B
none >>= f = none
some a >>= f = f a

-- `u8::is_ascii_whitespace`
abbrev pub is_space : ℕ → Bool
is_space b = b == b' ' || b == b'\t' || b == b'\n' || b == 0x0c || b == b'\r'

unfoldable pub skip_spaces : Bytes → Bytes
skip_spaces [] = []
skip_spaces (b ∷ bs) = let rest = skip_spaces bs in if is_space b then rest else b ∷ bs

-- the bytes before the `=`, and those behind it
unfoldable pub scan_key : Bytes → Option (Bytes × Bytes)
scan_key [] = none
scan_key (b ∷ bs) =
    let more = scan_key bs >>= λ (key, rest). some (b ∷ key, rest) in
    if b == b'=' then some ([], bs) else if is_space b then none else more

abbrev pub unescape : ℕ → Bytes
unescape b =
    if b == b'"' || b == b'\\'
    then b ∷ []
    else if b == b'n'
    then b'\n' ∷ []
    else if b == b'r'
    then b'\r' ∷ []
    else if b == b't'
    then b'\t' ∷ []
    else b'\\' ∷ b ∷ []

abbrev pub before : Bytes → Option (Bytes × Bytes) → Option (Bytes × Bytes)
before bytes r = r >>= λ (value, rest). some (bytes ++ value, rest)

-- behind an opening quote
unfoldable pub scan_quoted : Bytes → Option (Bytes × Bytes)
scan_quoted [] = none
scan_quoted (b ∷ []) = if b == b'"' then some ([], []) else none
scan_quoted (b ∷ c ∷ bs) =
    let plain = before (b ∷ []) (scan_quoted (c ∷ bs)) in
    let escaped = before (unescape c) (scan_quoted bs) in
    if b == b'"' then some ([], c ∷ bs) else if b == b'\\' then escaped else plain

unfoldable pub scan_bare : Bytes → Bytes × Bytes
scan_bare [] = ([], [])
scan_bare (b ∷ bs) =
    let more = scan_bare bs in if is_space b then ([], b ∷ bs) else (b ∷ more.0, more.1)

-- a closing quote ends the value
abbrev pub ended : Bytes × Bytes → Option (Bytes × Bytes)
ended (value, []) = some (value, [])
ended (value, b ∷ rest) = if is_space b then some (value, b ∷ rest) else none

unfoldable pub scan_value : Bytes → Option (Bytes × Bytes)
unfolding scan_quoted scan_bare
scan_value [] = some ([], [])
scan_value (b ∷ bs) = if b == b'"' then scan_quoted bs >>= ended else some (scan_bare (b ∷ bs))

abbrev pub nonempty : Bytes × Bytes → Option (Bytes × Bytes)
nonempty ([], rest) = none
nonempty (b ∷ key, rest) = some (b ∷ key, rest)

-- the fields of a line that starts with no space; each round takes a byte, so a round for each and
-- one more are enough
unfoldable pub scan_fields : (fuel : ℕ) → Bytes → Option (List (Bytes × Bytes))
unfolding skip_spaces scan_key scan_value
scan_fields fuel [] = some []
scan_fields zero (b ∷ bs) = none
scan_fields (suc fuel) (b ∷ bs) = do
  (key, rest) ← scan_key (b ∷ bs) >>= nonempty
  (value, left) ← scan_value rest
  fields ← scan_fields fuel (skip_spaces left)
  some ((key, value) ∷ fields)

unfoldable pub scan_logfmt : Bytes → Option (List (Bytes × Bytes))
unfolding scan_fields skip_spaces
scan_logfmt line = scan_fields (length line + 1) (skip_spaces line)

pub record ParsedLine : Type 0 where
  pub timestamp : Option LogTimestamp
  pub level : LogLevel
  pub target : Option Bytes
  pub message : Bytes
  pub fields : List LogField

-- what the pairs have set so far
pub record MihomoFields : Type 0 where
  pub raw_time : Option Bytes
  pub level : Option LogLevel
  pub message : Option Bytes
  pub fields : List LogField

unfoldable pub take_field : Bytes × Bytes → MihomoFields → MihomoFields
unfolding bytes_eq parse_level
take_field (key, value) m =
    if bytes_eq key (codes "time")
    then record m { raw_time = some value }
    else if bytes_eq key (codes "level")
    then record m { level = parse_level value }
    else if bytes_eq key (codes "msg")
    then record m { message = some value }
    else record m { fields = m.fields ++ record { key = key; value = value } ∷ [] }

unfoldable pub take_fields : List (Bytes × Bytes) → MihomoFields → MihomoFields
unfolding take_field
take_fields [] m = m
take_fields (pair ∷ pairs) m = take_fields pairs (take_field pair m)

abbrev pub no_fields : MihomoFields
no_fields = record { raw_time = none; level = none; message = none; fields = [] }

-- `rfc3339_ms` is chrono's
unfoldable pub parse_mihomo : (rfc3339_ms : Bytes → Option ℕ) → Bytes → Option ParsedLine
unfolding scan_logfmt take_fields
parse_mihomo rfc3339_ms line = do
  pairs ← scan_logfmt line
  let m = take_fields pairs no_fields
  raw_time ← m.raw_time
  level ← m.level
  message ← m.message
  some (record {
    timestamp = some (record { raw = raw_time; unix_ms = rfc3339_ms raw_time; inferred = false });
    level = level;
    target = none;
    message = message;
    fields = m.fields;
  })

two_fields :
    scan_logfmt (codes "a=1  msg=\"x \\\"y\\\" z\"")
    ≡ some ((codes "a", codes "1") ∷ (codes "msg", codes "x \"y\" z") ∷ [])
unfolding scan_logfmt
two_fields = refl
