-- ===== src/Health/Streaks.antt =====
-- Runs of equal probe results: how many of them turn the tracker's state (health/mod.rs).
use chimera_service.Base.{
  ℕ, suc, ◌+◌, ◌≤◌, ◌<◌, min, ◌≡◌, refl, sym, ap, ◌∙◌, subst, ◌≢◌, ◌⊎◌, inl, inr, true, false, ◌||◌,
  Option, List, [], ◌∷◌, arith, leb, length, u32_max,
}
use chimera_service.Base.Text.{Bytes}
use chimera_service.Health.{
  HealthPolicy, HealthTracker, ProbeResult, TrackerState, same_state, observe, observe_all,
}

-- successes at the given times
abbrev pub successes_at : List ℕ → List (ℕ × ProbeResult)
successes_at [] = []
successes_at (now ∷ rest) = (now, ProbeResult.healthy) ∷ successes_at rest

-- failures at the given times, with their details
abbrev pub failures_at : List (ℕ × Option Bytes) → List (ℕ × ProbeResult)
failures_at [] = []
failures_at ((now, detail) ∷ rest) = (now, ProbeResult.unhealthy detail) ∷ failures_at rest

successes_keep_healthy :
    (t : HealthTracker) (times : List ℕ)
    → t.state ≡ TrackerState.healthy
    → (observe_all t (successes_at times)).state ≡ TrackerState.healthy
unfolding observe_all
successes_keep_healthy t [] h = h
successes_keep_healthy t (now ∷ rest) h =
    successes_keep_healthy (observe t now ProbeResult.healthy).0 rest
      (unfold observe in ground arith)

-- one success of a tracker that is not healthy
success_step :
    (t : HealthTracker) (now : ℕ)
    → t.state ≢ TrackerState.healthy
    → t.consecutive_successes < t.policy.success_threshold
    → t.policy.success_threshold ≤ u32_max
    → ((t.policy.success_threshold ≤ suc t.consecutive_successes)
        × ((observe t now ProbeResult.healthy).0.state ≡ TrackerState.healthy))
      ⊎ ((suc t.consecutive_successes < t.policy.success_threshold)
          × ((observe t now ProbeResult.healthy).0.state ≢ TrackerState.healthy)
          × ((observe t now ProbeResult.healthy).0.consecutive_successes
              ≡ suc t.consecutive_successes)
          × ((observe t now ProbeResult.healthy).0.policy ≡ t.policy))
unfolding observe
success_step t now h k l = ground arith

-- A tracker that is not healthy and has a streak of `s` successes is healthy after `n` more
-- successes, at any times, exactly if `s + n` is at least the success threshold.
pub successes_reach_healthy :
    (t : HealthTracker) (times : List ℕ)
    → t.state ≢ TrackerState.healthy
    → t.consecutive_successes < t.policy.success_threshold
    → t.policy.success_threshold ≤ u32_max
    → same_state (observe_all t (successes_at times)).state TrackerState.healthy
      ≡ leb t.policy.success_threshold (t.consecutive_successes + length times)
unfolding observe_all
successes_reach_healthy t [] h k l = ground arith
successes_reach_healthy t (now ∷ rest) h k l = elim (success_step t now h k l) [
  | inl (enough, ready) ↦
      rw (successes_keep_healthy (observe t now ProbeResult.healthy).0 rest ready) (ground arith)
  | inr (few, still, streak, policy) ↦ ground (
    arith,
    successes_reach_healthy (observe t now ProbeResult.healthy).0 rest still
        (omega (arith, streak, ap (λ (p : HealthPolicy). p.success_threshold) policy))
        (omega (arith, ap (λ (p : HealthPolicy). p.success_threshold) policy)),
  )
]

-- every failure comes at or after the end of the grace period
abbrev pub AfterGrace : ℕ → List (ℕ × Option Bytes) → Type 0
AfterGrace grace_end [] = Unit
AfterGrace grace_end ((now, _) ∷ rest) = (grace_end ≤ now) × AfterGrace grace_end rest

-- every failure comes before the end of the grace period
abbrev pub DuringGrace : ℕ → List (ℕ × Option Bytes) → Type 0
DuringGrace grace_end [] = Unit
DuringGrace grace_end ((now, _) ∷ rest) = (now < grace_end) × DuringGrace grace_end rest

abbrev pub grace_end : HealthTracker → ℕ
grace_end t = t.started_at + t.policy.start_period

-- the tracker after one failure that counts
failure_step :
    (t : HealthTracker) (now : ℕ) (d : Option Bytes)
    → (t.grace_ended ≡ true) ⊎ (grace_end t ≤ now)
    → ((observe t now (ProbeResult.unhealthy d)).0.consecutive_failures
        ≡ min u32_max (suc t.consecutive_failures))
      × ((observe t now (ProbeResult.unhealthy d)).0.policy ≡ t.policy)
      × ((observe t now (ProbeResult.unhealthy d)).0.started_at ≡ t.started_at)
      × ((observe t now (ProbeResult.unhealthy d)).0.grace_ended ≡ t.grace_ended)
      × (same_state (observe t now (ProbeResult.unhealthy d)).0.state TrackerState.unhealthy ≡ (
          same_state t.state TrackerState.unhealthy
          || leb t.policy.failure_threshold (min u32_max (suc t.consecutive_failures))))
unfolding observe
failure_step t now d h = ground arith

counts_rest :
    (t : HealthTracker) (now : ℕ) (d : Option Bytes) (rest : List (ℕ × Option Bytes))
    → (t.grace_ended ≡ true) ⊎ AfterGrace (grace_end t) ((now, d) ∷ rest)
    → ((observe t now (ProbeResult.unhealthy d)).0.grace_ended ≡ true)
      ⊎ AfterGrace (grace_end (observe t now (ProbeResult.unhealthy d)).0) rest
unfolding observe
counts_rest t now d rest (inl e) = inl (ground (arith, e))
counts_rest t now d rest (inr h) = inr (subst (λ k. AfterGrace k rest) (ground arith) h.1)

counts_now :
    (t : HealthTracker) (now : ℕ) (d : Option Bytes) (rest : List (ℕ × Option Bytes))
    → (t.grace_ended ≡ true) ⊎ AfterGrace (grace_end t) ((now, d) ∷ rest)
    → (t.grace_ended ≡ true) ⊎ (grace_end t ≤ now)
counts_now t now d rest (inl e) = inl e
counts_now t now d rest (inr h) = inr h.0

-- Failures that count (a success was seen before them, or the grace period is over) add up, and
-- saturate at the greatest u32; the tracker is unhealthy after them exactly if it was so before,
-- or the count has reached the failure threshold.
pub failures_reach_unhealthy :
    (t : HealthTracker) (fs : List (ℕ × Option Bytes))
    → t.consecutive_failures ≤ u32_max
    → t.policy.failure_threshold ≤ u32_max
    → (same_state t.state TrackerState.unhealthy ≡ false
        → t.consecutive_failures < t.policy.failure_threshold)
    → (t.grace_ended ≡ true) ⊎ AfterGrace (grace_end t) fs
    → ((observe_all t (failures_at fs)).consecutive_failures
        ≡ min u32_max (t.consecutive_failures + length fs))
      × (same_state (observe_all t (failures_at fs)).state TrackerState.unhealthy ≡ (
          same_state t.state TrackerState.unhealthy
          || leb t.policy.failure_threshold (t.consecutive_failures + length fs)))
unfolding observe_all
failures_reach_unhealthy t [] u v w g = ground arith
failures_reach_unhealthy t ((now, d) ∷ rest) u v w g =
    let t' = (observe t now (ProbeResult.unhealthy d)).0 in
    let step = failure_step t now d (counts_now t now d rest g) in
    let threshold = ap (λ (p : HealthPolicy). p.failure_threshold) step.1 in
    let ih =
      failures_reach_unhealthy t' rest (omega (arith, step.0)) (omega (arith, threshold))
        (ground (arith, step, threshold)) (counts_rest t now d rest g) in
    (omega (arith, ih.0, step.0), ground (arith, ih.1, step, threshold))

grace_step :
    (t : HealthTracker) (now : ℕ) (d : Option Bytes)
    → t.grace_ended ≡ false
    → now < grace_end t
    → (grace_end (observe t now (ProbeResult.unhealthy d)).0 ≡ grace_end t)
      × ((observe t now (ProbeResult.unhealthy d)).0.state ≡ t.state)
      × ((observe t now (ProbeResult.unhealthy d)).0.consecutive_failures ≡ t.consecutive_failures)
      × ((observe t now (ProbeResult.unhealthy d)).0.grace_ended ≡ false)
unfolding observe
grace_step t now d e h = ground arith

-- Failures within the grace period, before any success, change neither the state nor the failure
-- count, and do not end the grace period.
pub failures_in_grace_ignored :
    (t : HealthTracker) (fs : List (ℕ × Option Bytes))
    → t.grace_ended ≡ false
    → DuringGrace (grace_end t) fs
    → ((observe_all t (failures_at fs)).state ≡ t.state)
      × ((observe_all t (failures_at fs)).consecutive_failures ≡ t.consecutive_failures)
      × ((observe_all t (failures_at fs)).grace_ended ≡ false)
unfolding observe_all
failures_in_grace_ignored t [] e h = (refl, refl, e)
failures_in_grace_ignored t ((now, d) ∷ rest) e h =
    let (ends, state, count, open_still) = grace_step t now d e h.0 in
    let ih =
      failures_in_grace_ignored (observe t now (ProbeResult.unhealthy d)).0 rest open_still
        (subst (λ k. DuringGrace k rest) (sym ends) h.1) in
    (ih.0 ∙ state, ih.1 ∙ count, ih.2)
