-- ===== src/Health/Invariant.antt =====
-- What holds of a health tracker (health/mod.rs) between two observations.
use chimera_service.Base.{
  ℕ, ◌≤◌, ◌<◌, ◌≡◌, ◌≢◌, ◌↔◌, ◌⊎◌, true, none, List, [], ◌∷◌, arith, u32_max,
}
use chimera_service.Health.{
  HealthPolicy, HealthTracker, ProbeResult, TrackerState, same_state, new_tracker, observe,
  observe_all, is_healthy,
}

-- both thresholds are a `NonZeroU32`
pub record PolicyIsValid (p : HealthPolicy) : Type 0 where
  pub failure_positive : 0 < p.failure_threshold
  pub failure_u32 : p.failure_threshold ≤ u32_max
  pub success_positive : 0 < p.success_threshold
  pub success_u32 : p.success_threshold ≤ u32_max

pub record IsValid (t : HealthTracker) : Type 0 where
  pub healthy_has_no_streak : t.state ≡ TrackerState.healthy → t.consecutive_successes ≡ 0
  pub streak_incomplete : t.consecutive_successes < t.policy.success_threshold
  pub failures_u32 : t.consecutive_failures ≤ u32_max
  pub failures_incomplete :
      t.state ≢ TrackerState.unhealthy → t.consecutive_failures < t.policy.failure_threshold
  pub one_streak : (t.consecutive_successes ≡ 0) ⊎ (t.consecutive_failures ≡ 0)
  pub success_ends_grace : 0 < t.consecutive_successes → t.grace_ended ≡ true
  pub healthy_ended_grace : t.state ≡ TrackerState.healthy → t.grace_ended ≡ true
  pub healthy_streak_clears_error : 0 < t.consecutive_successes → t.last_error ≡ none

pub new_tracker-IsValid :
    (p : HealthPolicy) (now : ℕ) → PolicyIsValid p → IsValid (new_tracker p now)
unfolding new_tracker
new_tracker-IsValid p now v = ground arith

pub observe-policy :
    (t : HealthTracker) (now : ℕ) (r : ProbeResult) → (observe t now r).0.policy ≡ t.policy
unfolding observe
observe-policy t now ProbeResult.healthy = ground arith
observe-policy t now (ProbeResult.unhealthy d) = ground arith

pub observe-IsValid :
    (t : HealthTracker) (now : ℕ) (r : ProbeResult)
    → PolicyIsValid t.policy
    → IsValid t
    → IsValid (observe t now r).0
unfolding observe
observe-IsValid t now ProbeResult.healthy p v = ground arith
observe-IsValid t now (ProbeResult.unhealthy d) p v = ground arith

observe_all-IsValid_from :
    (t : HealthTracker) (rs : List (ℕ × ProbeResult))
    → PolicyIsValid t.policy
    → IsValid t
    → IsValid (observe_all t rs)
unfolding observe_all
observe_all-IsValid_from t [] p v = v
observe_all-IsValid_from t ((now, r) ∷ rs) p v =
    observe_all-IsValid_from (observe t now r).0 rs (rw observe-policy p)
      (observe-IsValid t now r p v)

-- Whatever a tracker that starts under a policy with thresholds of at least 1 observes, and when:
-- a healthy tracker has no success streak, a success streak is shorter than the threshold, the
-- failure count is a u32 and reaches its threshold only in the unhealthy state, one of the two
-- counts is 0, and a success streak means that the grace period is over and no error is kept.
pub observe_all-IsValid :
    (p : HealthPolicy) (started_at : ℕ) (rs : List (ℕ × ProbeResult))
    → PolicyIsValid p
    → IsValid (observe_all (new_tracker p started_at) rs)
observe_all-IsValid p started_at rs v =
    observe_all-IsValid_from (new_tracker p started_at) rs (unfold new_tracker in v)
      (new_tracker-IsValid p started_at v)

-- The transition diagram of the tracker: no way leads back to `starting`.
infix 40 ◌⟶◌
pub data ◌⟶◌ : TrackerState → TrackerState → Type 0 where
  stays : {s : TrackerState} → s ⟶ s
  becomes_ready : TrackerState.starting ⟶ TrackerState.healthy
  never_ready : TrackerState.starting ⟶ TrackerState.unhealthy
  fails : TrackerState.healthy ⟶ TrackerState.unhealthy
  recovers : TrackerState.unhealthy ⟶ TrackerState.healthy

ruleset edges = (stays, becomes_ready, never_ready, fails, recovers)

-- An observation follows an edge of the diagram, and its update flags a transition exactly when
-- the state changed; to become healthy it takes a success, to become unhealthy a failure.
pub observe-⟶ :
    (t : HealthTracker) (now : ℕ) (r : ProbeResult)
    → (t.state ⟶ (observe t now r).0.state)
      × (((observe t now r).1.transitioned ≡ true) ↔ (t.state ≢ (observe t now r).0.state))
      × ((t.state ≡ (observe t now r).0.state)
          ⊎ (is_healthy r ≡ same_state (observe t now r).0.state TrackerState.healthy))
unfolding observe
observe-⟶ t now ProbeResult.healthy = (grind (arith, edges), ground arith, ground arith)
observe-⟶ t now (ProbeResult.unhealthy d) = (grind (arith, edges), ground arith, ground arith)
