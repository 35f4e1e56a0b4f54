-- ===== src/Worker/Database.antt =====
-- The database operations of a run (backend/internal/drill/worker.go: transition, recordStep,
-- setTerminal, fail; backend/internal/database/resources.go: CancelDrill). A transaction that does
-- not commit writes nothing. A commit that reports an error is taken to have written nothing.
pub mod Moves
use Prim.Native.String
use restoreguard.Common.{
  ℕ, Bool, true, false, not, Option, none, some, List, [], ◌∷◌, ◌++◌, String, ◌||◌, ◌==◌, any,
  if◌then◌else◌,
}
use restoreguard.Domain.Status.{
  DrillStatus, queued, preparing, restoring, validating, finalizing, succeeded, failed, cancelled,
  inconclusive, TransitionError, no_error, invalid_transition,
}
use restoreguard.Domain.Status
use restoreguard.Domain.Lifecycle.{is_terminal}
use restoreguard.Domain.Recovery.{Time, Assessment, assessment_failed, assessment_unknown, low}
use restoreguard.Worker.World.{
  Drill, StepRow, Event, progressed, stepped, completed, World, begin, select, update, insert,
  commit, Point, at_transition, terminal, failing, record_step, Env, db_error,
}
use restoreguard.Worker.Flow.{Action, stop}

-- `UPDATE ... SET status='CANCELLED' ... WHERE status IN (the active statuses)`
unfoldable pub cancel_drill : Time → Drill → Drill
cancel_drill now d = if is_terminal d.status then d else record d {
  status = cancelled;
  completed_at = some now;
  updated_at = now;
  summary = "Cancelled by an authorized user";
  given = d.given ++ cancelled ∷ [];
}

interfere_at : Option Time → World → World
interfere_at none w = w
interfere_at (some now) w = record w { drill = cancel_drill now w.drill }

-- What a user's cancellation just before this point leaves.
unfoldable pub interfere : Env → Point → World → World
unfolding interfere_at cancel_drill
interfere env p w = interfere_at (env.cancels p) w

unfoldable pub publish : Event → World → World
publish e w = record w { events = w.events ++ e ∷ [] }

-- `ON CONFLICT(drill_id,sequence) DO NOTHING`
unfoldable insert_step : StepRow → List StepRow → List StepRow
insert_step row rows = if any (λ r. r.sequence == row.sequence) rows then rows else rows ++ row ∷ []

-- `coalesce(started_at,$3)`, where $3 is the time for PREPARING and null otherwise.
abbrev start_time : DrillStatus → Time → Option Time → Option Time
start_time to now (some t) = some t
start_time preparing now none = some now
start_time to now none = none

abbrev is_invalid : TransitionError → Bool
is_invalid invalid_transition = true
is_invalid no_error = false

write_transition : DrillStatus → String → ℕ → Time → World → World
unfolding insert_step
write_transition to step sequence now w = record w {
  drill = record w.drill {
    status = to;
    started_at = start_time to now w.drill.started_at;
    updated_at = now;
    given = w.drill.given ++ to ∷ [];
  };
  steps =
      insert_step
        (record {
          kind = step;
          at = now;
          summary = String.◌++◌ step " completed";
          sequence = sequence;
        })
        w.steps;
}

-- The row is locked by the select, so a cancellation comes before it or after the commit.
locked_transition : Env → DrillStatus → String → ℕ → World → Bool × World
unfolding write_transition Status.transition publish
locked_transition env to step sequence w =
    if db_error env (at_transition to select)
    then (true, w)
    else if is_invalid (Status.transition w.drill.status to)
    then (true, w)
    else if db_error env (at_transition to update)
    then (true, w)
    else if db_error env (at_transition to insert)
    then (true, w)
    else if db_error env (at_transition to commit)
    then (true, w)
    else (
      false,
      publish (progressed to step)
          (write_transition to step sequence (env.clock (at_transition to update)) w),
    )

-- The result tells whether an error is returned.
unfoldable pub transition : Env → DrillStatus → String → ℕ → World → Bool × World
unfolding locked_transition interfere
transition env to step sequence w =
    if db_error env (at_transition to begin)
    then (true, w)
    else locked_transition env to step sequence (interfere env (at_transition to select) w)

unfoldable pub record_step_row : Env → String → ℕ → String → World → Bool × World
unfolding insert_step publish
record_step_row env step sequence summary w = if db_error env record_step then (true, w) else (
  false,
  publish (stepped step) (record w {
    steps =
        insert_step
          (record {
            kind = step;
            at = env.clock record_step;
            summary = summary;
            sequence = sequence;
          })
          w.steps;
  }),
)

abbrev terminal_assessment : DrillStatus → Assessment
terminal_assessment failed = assessment_failed
terminal_assessment _ = assessment_unknown

-- The update skips a drill that is terminal; the event is published in any case.
write_terminal : DrillStatus → String → Time → Drill → Drill
write_terminal status summary now d = if is_terminal d.status then d else record d {
  status = status;
  completed_at = some now;
  updated_at = now;
  recovery_status = some (terminal_assessment status);
  confidence = some low;
  summary = summary;
  given = d.given ++ status ∷ [];
}

end_drill : Env → DrillStatus → String → World → World
unfolding write_terminal publish
end_drill env status summary w =
    publish (completed status none)
      (record w { drill = write_terminal status summary (env.db_now terminal) w.drill })

-- `error` is whether the update reports an error, which depends on the context of the call.
unfoldable pub set_terminal : Env → Bool → DrillStatus → String → World → Bool × World
unfolding end_drill interfere
set_terminal env error status summary w =
    let w' = interfere env terminal w in
    if error then (true, w') else (false, end_drill env status summary w')

-- `fail` writes under a fresh context and its caller returns.
unfoldable pub fail : {A : Type 0} → Env → String → Action A
unfolding set_terminal
fail env summary w =
    if env.done failing
    then (
      stop,
      (set_terminal env (env.fails terminal) cancelled
          "Drill was cancelled; partial evidence may be retained" w).1,
    )
    else (stop, (set_terminal env (env.fails terminal) failed summary w).1)
