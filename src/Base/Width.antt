-- ===== src/Base/Width.antt =====
-- Unsigned numbers of a fixed width: their greatest values, and the saturating addition of 1.
use Prim.Native.Nat.{ℕ, suc, ◌-◌, ◌^◌, compare, Ordering}

abbrev pub u32_max : ℕ
u32_max = 2 ^ 32 - 1

abbrev pub u64_max : ℕ
u64_max = 2 ^ 64 - 1

-- `u32::saturating_add(1)`
abbrev pub saturating_suc : ℕ → ℕ
saturating_suc n = elim (compare n u32_max) [ Ordering.lt ↦ suc n | _ ↦ u32_max ]
