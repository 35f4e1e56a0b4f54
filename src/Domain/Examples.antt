-- ===== src/Domain/Examples.antt =====
-- The theorems on backend/internal/domain/recovery.go at concrete inputs.
use restoreguard.Common.{
  ℕ, ◌*◌, ◌/◌, ◌≤◌, ◌<◌, ◌≡◌, refl, ◌≢◌, ◌↔◌, true, false, List, [], ◌∷◌, length, arith, All,
}
use restoreguard.Common.Int.{pos}
use restoreguard.Domain.Status.{
  DrillStatus, queued, preparing, restoring, validating, finalizing, succeeded, transition,
}
use restoreguard.Domain.Lifecycle.{IsHistory, history_bounded, success_history}
use restoreguard.Domain.Recovery.{
  Time, nanos, SecondsConversion, pass, verified, passed, warning, ValidationOutcome, assess, sub,
}
use restoreguard.Domain.Measures.{rpo_result, rpo_pass_iff}
use restoreguard.Domain.Assessment.{verified_iff, Passes}

abbrev whole_seconds : ℕ → ℕ
whole_seconds d = d / nanos

-- The conversion that cuts off exactly.
abbrev pub exact_conversion : SecondsConversion
exact_conversion = record {
  seconds = whole_seconds;
  not_early = λ d h. omega arith;
  not_late = λ d h. omega arith;
  exact = λ n h. omega arith;
  monotone = λ c d h b. omega arith;
}

abbrev successful : List DrillStatus
successful = preparing ∷ restoring ∷ validating ∷ finalizing ∷ succeeded ∷ []

successful-IsHistory : IsHistory queued successful succeeded
unfolding transition
successful-IsHistory = (refl, (refl, (refl, (refl, (refl, refl)))))

abbrev no_statuses : List DrillStatus
no_statuses = []

history_bounded_example : length successful ≤ 5
history_bounded_example = history_bounded queued succeeded successful successful-IsHistory

success_history_example :
    successful ≡ preparing ∷ restoring ∷ validating ∷ finalizing ∷ succeeded ∷ []
success_history_example = success_history successful successful-IsHistory

-- A snapshot of second 100 and a drill 90 seconds later.
abbrev snapshot_time : Time
snapshot_time = 100 * nanos

abbrev drill_time : Time
drill_time = 190 * nanos

rpo_pass_iff_example : (rpo_result exact_conversion drill_time snapshot_time (pos 60) ≡ pass) ↔ (
    (0 < 60)
    × (0 < snapshot_time)
    × (snapshot_time ≤ drill_time)
    × (whole_seconds (sub drill_time snapshot_time) ≤ 60))
rpo_pass_iff_example = rpo_pass_iff exact_conversion drill_time snapshot_time 60

abbrev outcomes : List ValidationOutcome
outcomes =
    record { status = passed; required = true } ∷ record { status = warning; required = false } ∷ []

verified_iff_example :
    ((assess true outcomes true).0 ≡ verified)
    ↔ ((true ≡ true) × (outcomes ≢ []) × All Passes outcomes × (true ≡ true))
verified_iff_example = verified_iff true outcomes true
