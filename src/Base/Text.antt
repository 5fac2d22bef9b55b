-- ===== src/Base/Text.antt =====
-- Text as its UTF-8 bytes, for code that measures and cuts it: `str::len` is the number of bytes,
-- and `str::is_char_boundary` looks for a byte that continues no character.
use Prim.Native.Nat.{ℕ, zero, suc, ◌≤◌, ◌<◌}
use Prim.Native.Char.{code}
use Prim.Native.String.{String}
use mathlib.Core.Path.{◌≡◌, refl}
use mathlib.Core.Bool.{Bool, true, false, ◌&&◌, not}
use mathlib.Core.List.{List, [], ◌∷◌}
use mathlib.Core.Logic.{inl, inr}
use native.Mathlib.Omega.{arith}
use chimera_service.Base.Tests.{◌==◌, ltb, leb, if◌then◌else◌, Bool-cases}

abbrev pub Bytes : Type 0
Bytes = List ℕ

-- the bytes of an ASCII text
abbrev pub codes : String → Bytes
codes String.[] = []
codes (String.◌∷◌ c s) = code c ∷ codes s

-- a byte 0b10xxxxxx
abbrev pub is_continuation : ℕ → Bool
is_continuation b = leb 128 b && ltb b 192

-- `str::is_char_boundary`
unfoldable pub is_char_boundary : Bytes → ℕ → Bool
is_char_boundary text zero = true
is_char_boundary [] (suc i) = false
is_char_boundary (b ∷ []) (suc zero) = true
is_char_boundary (b ∷ c ∷ text) (suc zero) = not (is_continuation c)
is_char_boundary (b ∷ text) (suc (suc i)) = is_char_boundary text (suc i)

-- `let mut end = max; while !text.is_char_boundary(end) { end -= 1 }`
unfoldable pub floor_boundary : Bytes → ℕ → ℕ
floor_boundary text zero = zero
floor_boundary text (suc end) =
    if is_char_boundary text (suc end) then suc end else floor_boundary text end

pub floor_boundary-le : (text : Bytes) (end : ℕ) → floor_boundary text end ≤ end
unfolding floor_boundary
floor_boundary-le text zero = omega arith
floor_boundary-le text (suc end) = ground (arith, floor_boundary-le text end)

-- The cut is on a boundary.
pub floor_boundary_on :
    (text : Bytes) (end : ℕ) → is_char_boundary text (floor_boundary text end) ≡ true
unfolding floor_boundary
floor_boundary_on text zero = unfold is_char_boundary in refl
floor_boundary_on text (suc end) = elim (Bool-cases (is_char_boundary text (suc end))) [
  | inl e ↦ ground (arith, e)
  | inr e ↦ ground (arith, e, floor_boundary_on text end)
]

-- No later boundary was passed over.
pub floor_boundary_greatest :
    (text : Bytes) (end i : ℕ)
    → floor_boundary text end < i
    → i ≤ end
    → is_char_boundary text i ≡ false
unfolding floor_boundary
floor_boundary_greatest text zero i h k = absurd (omega arith)
floor_boundary_greatest text (suc end) i h k = ground (arith, floor_boundary_greatest text end i)

-- `==` on texts
unfoldable pub bytes_eq : Bytes → Bytes → Bool
bytes_eq [] [] = true
bytes_eq (a ∷ text) (b ∷ other) = a == b && bytes_eq text other
bytes_eq _ _ = false
