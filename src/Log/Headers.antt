-- ===== src/Log/Headers.antt =====
-- The headers of the other cores: `parse_meow` and `parse_header` of log.rs (crates/chimera-core-manager).
-- A line is its UTF-8 bytes. What chrono computes is the parameter `Chrono`.
pub mod Tokens
pub mod ClashRs
pub mod Premium
use chimera_service.Base.{ℕ, false, Option, some, []}
use chimera_service.Base.Text.{Bytes}
use chimera_service.Log.Frame.{CoreKind}
use chimera_service.Log.Ansi.{parse_level}
use chimera_service.Log.Logfmt.{ParsedLine, ◌>>=◌, parse_mihomo}
use chimera_service.Log.Headers.Tokens.{Chrono, take_token, split_once, nonempty_text}
use chimera_service.Log.Headers.ClashRs.{parse_clash_rs}
use chimera_service.Log.Headers.Premium.{parse_premium}

unfoldable pub parse_meow : Chrono → Bytes → Option ParsedLine
unfolding take_token split_once parse_level
parse_meow chrono line = do
  (raw_time, rest) ← take_token line
  (name, rest') ← take_token rest
  level ← parse_level name
  (target, message) ← split_once b':' b' ' rest'
  _ ← nonempty_text target
  some (record {
    timestamp =
        some (record { raw = raw_time; unix_ms = chrono.rfc3339_ms raw_time; inferred = false });
    level = level;
    target = some target;
    message = message;
    fields = [];
  })

-- `LogParser::parse_header`
unfoldable pub parse_header :
    Chrono → CoreKind → Option (ℕ × ℕ) → Bytes → (at : ℕ) → Option ParsedLine × Option (ℕ × ℕ)
unfolding parse_mihomo parse_meow parse_clash_rs parse_premium
parse_header chrono CoreKind.mihomo clock line at = (parse_mihomo chrono.rfc3339_ms line, clock)
parse_header chrono CoreKind.meow clock line at = (parse_meow chrono line, clock)
parse_header chrono CoreKind.clash_rust clock line at = (parse_clash_rs chrono line at, clock)
parse_header chrono CoreKind.chimera_client clock line at = (parse_clash_rs chrono line at, clock)
parse_header chrono CoreKind.clash_premium clock line at = parse_premium chrono line at clock
