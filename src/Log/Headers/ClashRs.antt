-- ===== src/Log/Headers/ClashRs.antt =====
-- `parse_clash_rs` of log.rs (crates/chimera-core-manager).
use chimera_service.Base.{
  ℕ, suc, ◌+◌, ◌-◌, ◌*◌, ◌^◌, Bool, true, false, Option, none, some, [], ◌∷◌, ◌++◌, leb, ◌==◌, ◌&&◌,
  not, if◌then◌else◌, length, take, drop, get_elem?, all, u32_max,
}
use chimera_service.Base.Text.{Bytes, is_char_boundary}
use chimera_service.Log.Ansi.{parse_level}
use chimera_service.Log.Logfmt.{ParsedLine, ◌>>=◌}
use chimera_service.Log.Headers.Tokens.{Chrono, space_length, take_token, nonempty_text}

-- `str::get(..n)`
unfoldable pub get_before : ℕ → Bytes → Option Bytes
unfolding is_char_boundary
get_before n text =
    if leb n (length text) && is_char_boundary text n then some (take n text) else none

-- `str::get(n..)`
unfoldable pub get_from : ℕ → Bytes → Option Bytes
unfolding is_char_boundary
get_from n text =
    if leb n (length text) && is_char_boundary text n then some (drop n text) else none

abbrev pub is_digit : ℕ → Bool
is_digit b = leb b'0' b && leb b b'9'

abbrev pub is_at : Bytes → ℕ → ℕ → Bool
is_at text index byte = elim (get_elem? text index) [ none ↦ false | some b ↦ b == byte ]

abbrev pub digits_at : Bytes → (start end : ℕ) → Bool
digits_at text start end = all is_digit (take (end - start) (drop start text))

unfoldable pub digit_run : Bytes → ℕ
digit_run [] = 0
digit_run (b ∷ bs) = let more = digit_run bs in if is_digit b then suc more else 0

unfoldable pub clash_rs_timestamp_end : Bytes → Option ℕ
unfolding digit_run
clash_rs_timestamp_end line =
    let digits = digit_run (drop 18 line) in
    if is_at line 2 b'-'
      && (is_at line 5 b'-'
          && (is_at line 8 b' '
              && (is_at line 11 b':' && (is_at line 14 b':' && is_at line 17 b':'))))
    then (if digits_at line 0 2
          && (digits_at line 3 5
              && (digits_at line 6 8
                  && (digits_at line 9 11 && (digits_at line 12 14 && digits_at line 15 17))))
        then (if leb 1 digits && leb digits 9 && is_at line (18 + digits) b' '
            then some (18 + digits)
            else none)
        else none)
    else none

-- `str::parse` of a u32, on a text of digits
unfoldable pub parse_digits : Bytes → ℕ → Option ℕ
parse_digits [] n = some n
parse_digits (b ∷ bs) n =
    let m = n * 10 + (b - b'0') in if is_digit b && leb m u32_max then parse_digits bs m else none

unfoldable pub number_at : Bytes → (start end : ℕ) → Option ℕ
unfolding parse_digits
number_at text start end =
    nonempty_text (take (end - start) (drop start text)) >>= λ digits. parse_digits digits 0

-- the parts are digits here: `clash_rs_timestamp_end` has found them
unfoldable pub clash_rs_unix_ms : Chrono → Bytes → (observed : ℕ) → Option ℕ
unfolding number_at
clash_rs_unix_ms chrono raw observed = do
  let subsecond = drop 18 raw
  fraction ← number_at raw 18 (length raw)
  year ← number_at raw 0 2
  month ← number_at raw 3 5
  day ← number_at raw 6 8
  date ← chrono.from_ymd (2000 + year) month day
  hour ← number_at raw 9 11
  minute ← number_at raw 12 14
  second ← number_at raw 15 17
  time ← chrono.from_hms_nano hour minute second (fraction * 10 ^ (9 - length subsecond))
  chrono.local_ms date time observed

-- the text up to the last colon, and the text behind it
unfoldable pub rsplit_colon : Bytes → Option (Bytes × Bytes)
rsplit_colon [] = none
rsplit_colon (b ∷ bs) = elim (rsplit_colon bs) [
  | some (head, tail) ↦ some (b ∷ head, tail)
  | none ↦ if b == b':' then some ([], bs) else none
]

-- the start of the last whitespace character, one byte on
unfoldable pub word_start : Bytes → ℕ
unfolding space_length
word_start [] = 0
word_start (b ∷ bs) =
    let more = word_start bs in
    if more == 0 then (if space_length (b ∷ bs) == 0 then 0 else 1) else suc more

-- the source anchor that ends at a colon, if the head is one: `<path>:<line>` behind the last space; where the code
-- would slice inside a character, which panics, there is none
unfoldable pub source_anchor : (head : Bytes) → Option Bytes
unfolding rsplit_colon word_start get_from
source_anchor head = do
  (path, line) ← rsplit_colon head
  _ ← nonempty_text line
  let start = word_start path
  if all is_digit line && not (start == length path) then get_from start head else none

-- the first `: ` whose head ends in an anchor
unfoldable pub clash_rs_source : (head rest : Bytes) → Option (Bytes × Bytes)
unfolding source_anchor
clash_rs_source head [] = none
clash_rs_source head (a ∷ []) = none
clash_rs_source head (a ∷ b ∷ rest) =
    let later = clash_rs_source (head ++ a ∷ []) (b ∷ rest) in
    if a == b':' && b == b' '
    then (elim (source_anchor head) [ some target ↦ some (target, rest) | none ↦ later ])
    else later

unfoldable pub parse_clash_rs : Chrono → Bytes → (observed : ℕ) → Option ParsedLine
unfolding clash_rs_timestamp_end get_before get_from take_token parse_level clash_rs_source
    clash_rs_unix_ms
parse_clash_rs chrono line observed = do
  end ← clash_rs_timestamp_end line
  raw_time ← get_before end line
  behind ← get_from end line
  (name, rest) ← take_token behind
  level ← parse_level name
  (target, message) ← clash_rs_source [] rest
  some (record {
    timestamp = some (record {
      raw = raw_time;
      unix_ms = clash_rs_unix_ms chrono raw_time observed;
      inferred = true;
    });
    level = level;
    target = some target;
    message = message;
    fields = [];
  })
