-- ===== src/Log/Parser/Records/Whole.antt =====
-- A text that is not cut is whole (log.rs).
use chimera_service.Base.{
  ℕ, zero, suc, ◌-◌, ◌≤◌, min, ◌≡◌, refl, ap, Bool, true, false, [], ◌∷◌, ◌++◌, arith, ◌||◌, length,
  take,
}
use chimera_service.Base.Text.{Bytes, floor_boundary}
use chimera_service.Log.Frame.{LogFrame}
use chimera_service.Log.Bound.{
  bound_frame, append_bounded, append_line, truncate_text, truncate_target, truncate_timestamp,
  truncate_fields, max_log_text_bytes,
}

pub or-false : (a b : Bool) → (a || b) ≡ false → (a ≡ false) × (b ≡ false)
or-false false b h = (refl, h)
or-false true b h = cc

pub or-true : (b : Bool) → (b || true) ≡ true
or-true true = refl
or-true false = refl

take-whole : (n : ℕ) (text : Bytes) → length text ≤ n → take n text ≡ text
take-whole zero [] h = refl
take-whole zero (b ∷ bs) h = absurd (omega arith)
take-whole (suc n) [] h = refl
take-whole (suc n) (b ∷ bs) h = ap (λ t. b ∷ t) (take-whole n bs (omega (arith, h)))

append_line_whole :
    (text line : Bytes) (end : ℕ)
    → (append_line text line end).1 ≡ false
    → (append_line text line end).0 ≡ text ++ b'\n' ∷ line
unfolding append_line
append_line_whole text line zero h = cc
append_line_whole text line (suc end) h =
    ap (λ t. text ++ b'\n' ∷ t) (take-whole (suc end) line (ground (arith, h)))

pub append_bounded_whole :
    (text line : Bytes) (n : ℕ)
    → (append_bounded text line n).1 ≡ false
    → (append_bounded text line n).0 ≡ text ++ b'\n' ∷ line
unfolding append_bounded
append_bounded_whole text [] n h = ground (arith, h)
append_bounded_whole text (b ∷ line) n h = ground (
  arith,
  h,
  append_line_whole text (b ∷ line)
      (floor_boundary (b ∷ line) (min (n - length text - 1) (length (b ∷ line)))),
)

truncate_text_whole :
    (text : Bytes) (n : ℕ) → (truncate_text text n).1 ≡ false → (truncate_text text n).0 ≡ text
unfolding truncate_text
truncate_text_whole text n h = ground (arith, h)

-- A frame that is not marked as truncated has its whole text.
pub bound_frame_whole :
    (frame : LogFrame) → (bound_frame frame).truncated ≡ false → (bound_frame frame).raw ≡ frame.raw
unfolding bound_frame
bound_frame_whole frame h =
    let p = (or-false _ (truncate_fields frame.fields).1 h).0 in
    let q = (or-false _ (truncate_timestamp frame.timestamp).1 p).0 in
    let r = (or-false _ (truncate_target frame.target).1 q).0 in
    truncate_text_whole frame.raw max_log_text_bytes
      (or-false _ (truncate_text frame.raw max_log_text_bytes).1 r).1
