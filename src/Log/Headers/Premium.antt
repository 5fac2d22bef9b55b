-- ===== src/Log/Headers/Premium.antt =====
-- `parse_premium` of log.rs (crates/chimera-core-manager).
use chimera_service.Base.{
  ℕ, ◌+◌, ◌*◌, ◌^◌, true, Option, none, some, [], ◌∷◌, ltb, ◌==◌, ◌&&◌, not, if◌then◌else◌, all,
}
use chimera_service.Base.Text.{Bytes}
use chimera_service.Log.Frame.{LogLevel}
use chimera_service.Log.Ansi.{parse_level}
use chimera_service.Log.Logfmt.{ParsedLine, ◌>>=◌}
use chimera_service.Log.Headers.Tokens.{Chrono, split_once}
use chimera_service.Log.Headers.ClashRs.{get_before, get_from, is_at}

abbrev pub twelve_hours : ℕ
twelve_hours = 12 * 3600 * 10 ^ 9

abbrev pub observed_date : Chrono → (time observed : ℕ) → Option ℕ
observed_date chrono time observed =
    if ltb (chrono.time_of observed + twelve_hours) time
    then chrono.pred (chrono.date_of observed)
    else some (chrono.date_of observed)

-- the date of a printed time, by the clock
unfoldable pub premium_date : Chrono → (time observed : ℕ) → Option (ℕ × ℕ) → Option ℕ
premium_date chrono time observed none = observed_date chrono time observed
premium_date chrono time observed (some (date, previous)) =
    if ltb (time + twelve_hours) previous then chrono.succ date else some date

-- the instant, and the clock; a date that cannot be had leaves the clock
unfoldable pub premium_unix_ms :
    Chrono → (time observed : ℕ) → Option (ℕ × ℕ) → Option ℕ × Option (ℕ × ℕ)
unfolding premium_date
premium_unix_ms chrono time observed clock = elim (premium_date chrono time observed clock) [
  | none ↦ (none, clock)
  | some date ↦ (chrono.local_ms date time observed, some (date, time))
]

-- the tag and the message
unfoldable pub tagged : Bytes → Option (Bytes × Bytes) → Option Bytes × Bytes
tagged body none = (none, body)
tagged body (some ([], message)) = (none, body)
tagged body (some (b ∷ tag, message)) =
    if all (λ c. not (c == b' ')) (b ∷ tag) then (some (b ∷ tag), message) else (none, body)

unfoldable pub premium_target : Bytes → Option Bytes × Bytes
unfolding tagged split_once
premium_target [] = (none, [])
premium_target (b ∷ bs) =
    if b == b'[' then tagged (b ∷ bs) (split_once b']' b' ' bs) else (none, b ∷ bs)

-- what a line of clash premium has, before its instant
unfoldable pub premium_parts : Chrono → Bytes → Option (Bytes × ℕ × LogLevel × Bytes)
unfolding get_before get_from parse_level
premium_parts chrono line =
    if is_at line 8 b' ' && is_at line 12 b' '
    then (do
      raw_time ← get_before 8 line
      time ← chrono.parse_hms raw_time
      behind ← get_from 9 line
      name ← get_before 3 behind
      level ← parse_level name
      body ← get_from 13 line
      some (raw_time, time, level, body))
    else none

unfoldable pub parse_premium :
    Chrono → Bytes → (observed : ℕ) → Option (ℕ × ℕ) → Option ParsedLine × Option (ℕ × ℕ)
unfolding premium_parts premium_target premium_unix_ms
parse_premium chrono line observed clock = elim (premium_parts chrono line) [
  | none ↦ (none, clock)
  | some (raw_time, time, level, body) ↦ (
    some (record {
      timestamp = some (record {
        raw = raw_time;
        unix_ms = (premium_unix_ms chrono time observed clock).0;
        inferred = true;
      });
      level = level;
      target = (premium_target body).0;
      message = (premium_target body).1;
      fields = [];
    }),
    (premium_unix_ms chrono time observed clock).1,
  )
]
