-- ===== src/Supervisor/Delay.antt =====
-- The delay before a restart: `Backoff` of crates/chimera-utils/src/process/supervisor.rs.
-- A `Duration` is a number of nanoseconds; `time_entropy` is the number that a call gets.
use native.Mathlib.Nat.{pow-le-pow_right}
use chimera_service.Base.{
  ℕ, ◌+◌, ◌-◌, ◌*◌, ◌/◌, ◌%◌, ◌^◌, ◌≤◌, ◌<◌, min, max, ◌≡◌, Bool, false, not, arith, if◌then◌else◌,
  u32_max, u64_max,
}

-- `Duration::MAX`
abbrev pub duration_max : ℕ
duration_max = u64_max * 1_000_000_000 + 999_999_999

pub record Backoff : Type 0 where
  pub initial : ℕ
  pub max_delay : ℕ
  pub jitter : Bool

-- `2u32.saturating_pow(attempt.min(30))`
unfoldable pub growth : ℕ → ℕ
growth attempt = min (2 ^ min attempt 30) u32_max

-- the delay without jitter
unfoldable pub base_delay : Backoff → ℕ → ℕ
base_delay b attempt = min (min (b.initial * growth attempt) duration_max) b.max_delay

-- the jitter in [-25%, +25%]; `base` is cast to a u64, and so is the sum
unfoldable pub jittered : ℕ → ℕ → ℕ
jittered base entropy =
    let base_ns = max base 1 % 2 ^ 64 in
    let span = base_ns / 2 in (base_ns - span / 2 + entropy % max span 1) % 2 ^ 64

-- `Backoff::delay_for`
unfoldable pub delay_for : Backoff → ℕ → ℕ → ℕ
delay_for b attempt entropy =
    let base = base_delay b attempt in if not b.jitter then base else jittered base entropy

two_pow_mono : (a b : ℕ) → a ≤ b → 2 ^ a ≤ 2 ^ b
two_pow_mono a b h = pow-le-pow_right (omega arith) h

growth_mono : (a b : ℕ) → a ≤ b → growth a ≤ growth b
unfolding growth
growth_mono a b h = omega (arith, two_pow_mono (min a 30) (min b 30) (omega arith))

growth_small : (n : ℕ) → n ≤ 30 → growth n ≡ 2 ^ n
unfolding growth
growth_small n h =
    let capped : min n 30 ≡ n = omega arith in rw capped (omega (arith, two_pow_mono n 30 h))

delay_mono :
    (b : Backoff) (attempt later : ℕ) → attempt ≤ later → base_delay b attempt ≤ base_delay b later
unfolding base_delay
delay_mono b attempt later h = omega (arith, scaled)
  where
    scaled : b.initial * growth attempt ≤ b.initial * growth later
    scaled = grind (arith, growth_mono attempt later h)

base_delay-le : (b : Backoff) (attempt : ℕ) → base_delay b attempt ≤ b.max_delay
unfolding base_delay
base_delay-le b attempt = omega arith

-- Without jitter the delays grow with the attempt, and none passes the ceiling.
pub delay_for_schedule :
    (b : Backoff) (attempt later e e' : ℕ)
    → b.jitter ≡ false
    → attempt ≤ later
    → (delay_for b attempt e ≤ delay_for b later e') × (delay_for b later e' ≤ b.max_delay)
unfolding delay_for
delay_for_schedule b attempt later e e' j h =
    (ground (arith, delay_mono b attempt later h), ground (arith, base_delay-le b later))

-- Without jitter, up to attempt 30 and while the ceiling and the longest `Duration` are not
-- reached, the delay is the first one doubled at each attempt.
pub delay_for_doubles :
    (b : Backoff) (attempt e : ℕ)
    → b.jitter ≡ false
    → attempt ≤ 30
    → b.initial * 2 ^ attempt ≤ min duration_max b.max_delay
    → delay_for b attempt e ≡ b.initial * 2 ^ attempt
unfolding delay_for base_delay
delay_for_doubles b attempt e j small fits = rw (j, growth_small attempt small) (omega arith)

-- With jitter the delay of a base of at least 1 ns and at most 2^63 ns (292 years) is at least
-- three quarters of the base and at most five quarters of it, whatever the entropy.
pub jittered_range :
    (base entropy : ℕ)
    → 0 < base
    → base ≤ 2 ^ 63
    → (3 * base ≤ 4 * jittered base entropy) × (4 * jittered base entropy ≤ 5 * base)
unfolding jittered
jittered_range base entropy h k = omega arith
