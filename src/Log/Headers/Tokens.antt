-- ===== src/Log/Headers/Tokens.antt =====
-- The spaces and tokens of a line, and what the headers take from chrono (log.rs of
-- crates/chimera-core-manager). A date, a time of day and an instant are numbers, a time in nanoseconds.
use chimera_service.Base.{
  ℕ, zero, suc, Option, none, some, [], ◌∷◌, leb, ◌==◌, ◌&&◌, ◌||◌, if◌then◌else◌, length, drop,
}
use chimera_service.Base.Text.{Bytes}
use chimera_service.Log.Logfmt.{◌>>=◌}

pub record Chrono : Type 0 where
  pub rfc3339_ms : Bytes → Option ℕ
  -- `NaiveTime::parse_from_str` with `%H:%M:%S`
  pub parse_hms : Bytes → Option ℕ
  pub from_ymd : (year month day : ℕ) → Option ℕ
  pub from_hms_nano : (hour minute second nano : ℕ) → Option ℕ
  -- the next date and the one before
  pub succ : ℕ → Option ℕ
  pub pred : ℕ → Option ℕ
  -- an observed instant in the local zone
  pub date_of : ℕ → ℕ
  pub time_of : ℕ → ℕ
  -- the instant of a local date and time, in the zone of an observed instant
  pub local_ms : (date time : ℕ) → (observed : ℕ) → Option ℕ

-- the length of the whitespace character at the front, if there is one
unfoldable pub space_length : Bytes → ℕ
space_length [] = 0
space_length (a ∷ []) = if (leb 9 a && leb a 13) || a == b' ' then 1 else 0
space_length (a ∷ b ∷ []) =
    if (leb 9 a && leb a 13) || a == b' '
    then 1
    else if a == 0xc2 && (b == 0x85 || b == 0xa0)
    then 2
    else 0
space_length (a ∷ b ∷ c ∷ _) =
    if (leb 9 a && leb a 13) || a == b' '
    then 1
    else if a == 0xc2 && (b == 0x85 || b == 0xa0)
    then 2
    else if a == 0xe1 && (b == 0x9a && c == 0x80)
    then 3
    else if a == 0xe2
        && (b == 0x80 && ((leb 0x80 c && leb c 0x8a) || (c == 0xa8 || (c == 0xa9 || c == 0xaf))))
    then 3
    else if a == 0xe2 && (b == 0x81 && c == 0x9f)
    then 3
    else if a == 0xe3 && (b == 0x80 && c == 0x80)
    then 3
    else 0

-- `str::trim_start`; a round of fuel for each character
unfoldable pub trim_from : (fuel : ℕ) → Bytes → Bytes
unfolding space_length
trim_from zero text = text
trim_from (suc fuel) text =
    let rest = trim_from fuel (drop (space_length text) text) in
    if space_length text == 0 then text else rest

unfoldable pub trim_start : Bytes → Bytes
unfolding trim_from
trim_start text = trim_from (length text) text

-- what is before the first whitespace character, and what starts with it
unfoldable pub until_space : Bytes → Option (Bytes × Bytes)
unfolding space_length
until_space [] = none
until_space (b ∷ bs) =
    let more = until_space bs >>= λ (token, rest). some (b ∷ token, rest) in
    if space_length (b ∷ bs) == 0 then more else some ([], b ∷ bs)

unfoldable pub take_token : Bytes → Option (Bytes × Bytes)
unfolding trim_start until_space
take_token input = until_space (trim_start input) >>= λ (token, rest). some (token, trim_start rest)

-- `str::split_once` at a separator of two bytes
unfoldable pub split_once : (a b : ℕ) → Bytes → Option (Bytes × Bytes)
split_once a b [] = none
split_once a b (x ∷ []) = none
split_once a b (x ∷ y ∷ text) =
    let more = split_once a b (y ∷ text) >>= λ (head, rest). some (x ∷ head, rest) in
    if x == a && y == b then some ([], text) else more

abbrev pub nonempty_text : Bytes → Option Bytes
nonempty_text [] = none
nonempty_text (b ∷ bs) = some (b ∷ bs)
