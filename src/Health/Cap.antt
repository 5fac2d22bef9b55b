-- ===== src/Health/Cap.antt =====
-- `cap_detail` of health/mod.rs: the recorded detail of a failed probe is cut to 512 bytes, on a
-- character boundary.
use chimera_service.Base.Text.{
  Bytes, floor_boundary, floor_boundary-le, floor_boundary_on, floor_boundary_greatest,
  is_char_boundary,
}
use chimera_service.Base.{
  ℕ, ◌≤◌, ◌<◌, ◌≡◌, refl, ap, true, false, [], ◌∷◌, arith, leb, if◌then◌else◌, length, take,
  length-take,
}

abbrev pub max_last_error_bytes : ℕ
max_last_error_bytes = 512

unfoldable pub cap_detail : Bytes → Bytes
cap_detail detail =
    if leb (length detail) max_last_error_bytes
    then detail
    else take (floor_boundary detail max_last_error_bytes) detail

pub length-cap_detail : (detail : Bytes) → length (cap_detail detail) ≤ max_last_error_bytes
unfolding cap_detail
length-cap_detail detail =
    ground (arith, length-take (floor_boundary detail 512) detail, floor_boundary-le detail 512)

-- What is kept is a prefix of the detail that ends on a character boundary; a detail that fits is
-- kept whole, and one that does not fit keeps every character that ends at or before byte 512.
pub record IsCapped (detail kept : Bytes) : Type 0 where
  pub end : ℕ
  pub prefix : kept ≡ take end detail
  pub bounded : length kept ≤ max_last_error_bytes
  pub whole : length detail ≤ max_last_error_bytes → kept ≡ detail
  pub on_boundary : max_last_error_bytes < length detail → is_char_boundary detail end ≡ true
  pub greatest :
      (i : ℕ)
      → max_last_error_bytes < length detail
      → end < i
      → i ≤ max_last_error_bytes
      → is_char_boundary detail i ≡ false

take-length : (xs : Bytes) → xs ≡ take (length xs) xs
take-length [] = refl
take-length (x ∷ xs) = ap (λ ys. x ∷ ys) (take-length xs)

capped_end : Bytes → ℕ
capped_end detail =
    if leb (length detail) max_last_error_bytes
    then length detail
    else floor_boundary detail max_last_error_bytes

-- The recorded detail is a prefix of the probe's detail of at most 512 bytes; it is the whole
-- detail where that fits, and otherwise ends on the last character boundary at or before 512.
pub cap_detail-IsCapped : (detail : Bytes) → IsCapped detail (cap_detail detail)
unfolding cap_detail capped_end
cap_detail-IsCapped detail = record {
  end = capped_end detail;
  prefix = ground (arith, take-length detail);
  bounded = length-cap_detail detail;
  whole = λ h. ground arith;
  on_boundary = λ h. ground (arith, floor_boundary_on detail 512);
  greatest = λ i h k l. ground (arith, floor_boundary_greatest detail 512 i);
}
