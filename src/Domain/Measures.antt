-- ===== src/Domain/Measures.antt =====
-- What MeasureRPO, MeasureRTO and EvaluatePolicy decide together.
use restoreguard.Common.{ℕ, suc, ◌+◌, ◌*◌, ◌≤◌, ◌<◌, ◌≡◌, ◌↔◌, ◌⊎◌, arith}
use restoreguard.Common.Int.{ℤ, pos, negsuc, ◌≤ℤ◌}
use restoreguard.Domain.Recovery.{
  Time, nanos, max_duration, SecondsConversion, PolicyResult, pass, inconclusive, sub, measure_rpo,
  measure_rto, evaluate_policy,
}

module _ (conv : SecondsConversion) where
  open conv use {seconds}

  -- The two calls of the worker on a measurement and its target.
  abbrev pub rpo_result : Time → Time → ℤ → PolicyResult
  rpo_result drill_time snapshot_time target =
      let (measured, state) = measure_rpo conv drill_time snapshot_time in
      evaluate_policy measured state target

  abbrev pub rto_result : Time → Time → ℤ → PolicyResult
  rto_result started_at ready_at target =
      let (measured, state) = measure_rto conv started_at ready_at in
      evaluate_policy measured state target

  -- The RPO objective is inconclusive exactly when the snapshot time is missing or in the future,
  -- or the target is not positive.
  rpo_inconclusive_iff :
      (drill snapshot : Time) (target : ℤ)
      → (rpo_result drill snapshot target ≡ inconclusive)
        ↔ ((snapshot ≡ 0) ⊎ (drill < snapshot) ⊎ (target ≤ℤ pos 0))
  unfolding measure_rpo evaluate_policy
  rpo_inconclusive_iff drill snapshot (pos t) = ground arith
  rpo_inconclusive_iff drill snapshot (negsuc t) = ground arith

  -- For a positive target the RPO objective passes exactly when there is a snapshot time, not after
  -- the drill, and the whole seconds between them do not exceed the target.
  pub rpo_pass_iff :
      (drill snapshot : Time) (target : ℕ)
      → (rpo_result drill snapshot (pos target) ≡ pass) ↔ (
          (0 < target)
          × (0 < snapshot)
          × (snapshot ≤ drill)
          × (seconds (sub drill snapshot) ≤ target))
  unfolding measure_rpo evaluate_policy
  rpo_pass_iff drill snapshot target = ground arith

  -- For a positive target the RTO objective passes exactly when there is a start time, recovery was
  -- not ready before it, and the whole seconds between them do not exceed the target.
  rto_pass_iff :
      (started ready : Time) (target : ℕ)
      → (rto_result started ready (pos target) ≡ pass) ↔ (
          (0 < target) × (0 < started) × (started ≤ ready) × (seconds (sub ready started) ≤ target))
  unfolding measure_rto evaluate_policy
  rto_pass_iff started ready target = ground arith

  -- A snapshot whose age is within the target passes: no objective that is met is reported as missed.
  pub rpo_met_passes :
      (drill snapshot : Time) (target : ℕ)
      → 0 < target
      → 0 < snapshot
      → snapshot ≤ drill
      → target * nanos ≤ max_duration
      → drill ≤ snapshot + target * nanos
      → rpo_result drill snapshot (pos target) ≡ pass
  rpo_met_passes drill snapshot target t s o b h = (rpo_pass_iff drill snapshot target).1 (
    t,
    s,
    o,
    omega (
      arith,
      conv.monotone (sub drill snapshot) (target * nanos) (omega arith) b,
      conv.exact target b,
    ),
  )

  -- An objective that passes is met up to one second: the age is below the target plus one second.
  pub rpo_pass_bound :
      (drill snapshot : Time) (target : ℕ)
      → drill ≤ snapshot + max_duration
      → rpo_result drill snapshot (pos target) ≡ pass
      → drill < snapshot + suc target * nanos
  rpo_pass_bound drill snapshot target b h =
      let (t, s, o, w) = (rpo_pass_iff drill snapshot target).0 h in
      omega (arith, conv.not_late (sub drill snapshot) (omega arith), w)
