-- ===== src/Health/Examples.antt =====
-- Runs of the health tracker, and the properties at concrete inputs.
use chimera_service.Base.{
  ℕ, ◌≡◌, refl, ◌≢◌, ◌↔◌, ◌⊎◌, inr, true, false, Option, none, List, [], ◌∷◌, ◌++◌, arith,
  replicate,
}
use chimera_service.Base.Text.{Bytes}
use chimera_service.Health.{
  HealthPolicy, ProbeResult, TrackerState, same_state, new_tracker, observe, observe_all,
  default_policy, new_policy, PolicyResult, is_healthy,
}
use chimera_service.Base.Text.{floor_boundary, is_char_boundary}
use chimera_service.Health.Cap.{cap_detail, cap_detail-IsCapped, IsCapped}
use chimera_service.Health.Invariant.{IsValid, observe_all-IsValid, observe-⟶, ◌⟶◌}
use chimera_service.Health.Streaks.{
  successes_at, failures_at, successes_reach_healthy, failures_reach_unhealthy,
  failures_in_grace_ignored,
}

-- three failures, two successes, no grace
abbrev strict : HealthPolicy
strict = record {
  interval = 10;
  timeout = 20;
  failure_threshold = 3;
  success_threshold = 2;
  start_period = 0;
}

abbrev patient : HealthPolicy
patient = record strict { start_period = 100 }

-- two successes make a starting tracker healthy, three failures then make it unhealthy
strict_run :
    (observe_all (new_tracker strict 0) (successes_at (1 ∷ 2 ∷ []))).state ≡ TrackerState.healthy
unfolding observe_all observe new_tracker
strict_run = refl

zero_interval_rejected :
    new_policy (record {
      interval = 0;
      timeout = 1;
      thresholds = record { failure = 1; success = 1 };
      start_period = 0;
    })
    ≡ PolicyResult.err chimera_service.Health.PolicyError.interval_is_zero
unfolding new_policy
zero_interval_rejected = refl

observe_all-IsValid_example :
    IsValid (observe_all (new_tracker default_policy 5) (successes_at (6 ∷ 7 ∷ [])))
observe_all-IsValid_example =
    observe_all-IsValid default_policy 5 (successes_at (6 ∷ 7 ∷ [])) (omega arith)

observe-⟶_example :
    let t = new_tracker default_policy 5 in
    (t.state ⟶ (observe t 6 ProbeResult.healthy).0.state)
    × (((observe t 6 ProbeResult.healthy).1.transitioned ≡ true)
        ↔ (t.state ≢ (observe t 6 ProbeResult.healthy).0.state))
    × ((t.state ≡ (observe t 6 ProbeResult.healthy).0.state)
        ⊎ (is_healthy ProbeResult.healthy
            ≡ same_state (observe t 6 ProbeResult.healthy).0.state TrackerState.healthy))
observe-⟶_example = observe-⟶ (new_tracker default_policy 5) 6 ProbeResult.healthy

successes_reach_healthy_example :
    same_state
      (observe_all (new_tracker strict 0) (successes_at (1 ∷ 2 ∷ []))).state
      TrackerState.healthy
    ≡ true
unfolding new_tracker
successes_reach_healthy_example =
    successes_reach_healthy (new_tracker strict 0) (1 ∷ 2 ∷ []) (λ e. cc) (omega arith)
      (omega arith)

abbrev three_failures : List (ℕ × Option Bytes)
three_failures = (1, none) ∷ (2, none) ∷ (3, none) ∷ []

failures_reach_unhealthy_example :
    ((observe_all (new_tracker strict 0) (failures_at three_failures)).consecutive_failures ≡ 3)
    × (same_state
          (observe_all (new_tracker strict 0) (failures_at three_failures)).state
          TrackerState.unhealthy
        ≡ true)
unfolding new_tracker
failures_reach_unhealthy_example =
    failures_reach_unhealthy (new_tracker strict 0) three_failures (omega arith) (omega arith)
      (λ e. omega arith) (inr (omega arith))

failures_in_grace_ignored_example :
    ((observe_all (new_tracker patient 0) (failures_at three_failures)).state
      ≡ (new_tracker patient 0).state)
    × ((observe_all (new_tracker patient 0) (failures_at three_failures)).consecutive_failures
        ≡ (new_tracker patient 0).consecutive_failures)
    × ((observe_all (new_tracker patient 0) (failures_at three_failures)).grace_ended ≡ false)
unfolding new_tracker
failures_in_grace_ignored_example =
    failures_in_grace_ignored (new_tracker patient 0) three_failures refl (omega arith)

-- 511 one-byte characters and a character of two bytes: the cut drops the whole character
abbrev long_detail : Bytes
long_detail = replicate 511 b'x' ++ 0xc3 ∷ 0xa9 ∷ []

cap_detail_cuts_before_character : cap_detail long_detail ≡ replicate 511 b'x'
unfolding cap_detail floor_boundary is_char_boundary
cap_detail_cuts_before_character = refl

cap_detail-IsCapped_example : IsCapped long_detail (cap_detail long_detail)
cap_detail-IsCapped_example = cap_detail-IsCapped long_detail
