-- ===== src/Log/Ansi.antt =====
-- `strip_ansi` and `parse_level` of log.rs (crates/chimera-core-manager): what a line is cleared of, and the
-- spellings of a level.
use chimera_service.Base.{
  ℕ, ◌≡◌, refl, Bool, false, Option, none, some, List, [], ◌∷◌, leb, ◌==◌, ◌&&◌, ◌||◌,
  if◌then◌else◌,
}
use chimera_service.Base.Text.{bytes_eq, Bytes, codes}
use chimera_service.Log.Frame.{LogLevel}

abbrev pub escape : ℕ
escape = 0x1b

-- the final byte of a CSI sequence
abbrev pub is_final : ℕ → Bool
is_final b = leb 0x40 b && leb b 0x7e

unfoldable mutual
  -- outside a sequence
  pub strip_plain : Bytes → Bytes
  strip_plain [] = []
  strip_plain (b ∷ []) = if b == escape then [] else b ∷ []
  strip_plain (b ∷ c ∷ bs) =
      let kept = strip_plain (c ∷ bs) in
      let skipped = strip_csi bs in
      if b == escape then (if c == b'[' then skipped else kept) else b ∷ kept

  -- behind `ESC [`, up to the final byte
  pub strip_csi : Bytes → Bytes
  strip_csi [] = []
  strip_csi (b ∷ bs) =
      let kept = strip_plain bs in
      let skipped = strip_csi bs in if is_final b then kept else skipped

unfoldable pub strip_ansi : Bytes → Bytes
unfolding strip_plain
strip_ansi line = strip_plain line

unfoldable pub is_one_of : Bytes → List Bytes → Bool
unfolding bytes_eq
is_one_of text [] = false
is_one_of text (t ∷ ts) = bytes_eq text t || is_one_of text ts

unfoldable pub parse_level : Bytes → Option LogLevel
unfolding is_one_of
parse_level level =
    if is_one_of level (codes "trace" ∷ codes "TRC" ∷ codes "TRACE" ∷ [])
    then some LogLevel.trace
    else if is_one_of level (codes "debug" ∷ codes "DBG" ∷ codes "DEBUG" ∷ [])
    then some LogLevel.debug
    else if is_one_of level (codes "info" ∷ codes "INF" ∷ codes "INFO" ∷ [])
    then some LogLevel.info
    else if is_one_of level (codes "warn" ∷ codes "warning" ∷ codes "WRN" ∷ codes "WARN" ∷ [])
    then some LogLevel.warning
    else if is_one_of level (codes "error" ∷ codes "ERR" ∷ codes "ERROR" ∷ [])
    then some LogLevel.error
    else if is_one_of level (codes "fatal" ∷ codes "panic" ∷ codes "FTL" ∷ codes "PNC" ∷ [])
    then some LogLevel.fatal
    else if bytes_eq level (codes "???")
    then some LogLevel.info
    else none

coloured : strip_ansi (escape ∷ b'[' ∷ b'3' ∷ b'2' ∷ b'm' ∷ codes "INFO") ≡ codes "INFO"
unfolding strip_ansi
coloured = refl
