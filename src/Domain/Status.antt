-- ===== src/Domain/Status.antt =====
-- backend/internal/domain/model.go and the state machine of backend/internal/domain/recovery.go.
use restoreguard.Common.{Bool, true, false, if◌then◌else◌, not}

pub data DrillStatus : Type 0 where
  queued preparing restoring validating finalizing succeeded failed cancelled inconclusive :
      DrillStatus

DrillStatus-discrete : Discrete DrillStatus
DrillStatus-discrete = hlevel

-- A missing key of the map of maps reads as false.
abbrev pub transitions : DrillStatus → DrillStatus → Bool
transitions queued preparing = true
transitions queued cancelled = true
transitions preparing restoring = true
transitions preparing failed = true
transitions preparing cancelled = true
transitions preparing inconclusive = true
transitions restoring validating = true
transitions restoring failed = true
transitions restoring cancelled = true
transitions restoring inconclusive = true
transitions validating finalizing = true
transitions validating failed = true
transitions validating cancelled = true
transitions validating inconclusive = true
transitions finalizing succeeded = true
transitions finalizing failed = true
transitions finalizing cancelled = true
transitions finalizing inconclusive = true
transitions _ _ = false

unfoldable can_transition : DrillStatus → DrillStatus → Bool
can_transition from to = transitions from to

pub data TransitionError : Type 0 where
  no_error invalid_transition : TransitionError

unfoldable pub transition : DrillStatus → DrillStatus → TransitionError
unfolding can_transition
transition from to = if not (can_transition from to) then invalid_transition else no_error
