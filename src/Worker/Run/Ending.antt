-- ===== src/Worker/Run/Ending.antt =====
-- The status in which a run leaves its drill.
use restoreguard.Common.{
  ℕ, ◌≡◌, refl, ap, Bool, true, false, none, arith, String, if_either, if◌then◌else◌,
}
use restoreguard.Domain.Status.{
  DrillStatus, queued, preparing, restoring, validating, finalizing, succeeded, no_error,
}
use restoreguard.Domain.Status
use restoreguard.Domain.Lifecycle.{is_terminal}
use restoreguard.Domain.Recovery.{Time}
use restoreguard.Worker.World.{
  Bytes, ObjectInfo, World, Statement, begin, select, update, insert, commit, Env, at_transition,
  record_step, terminal, begin_final, get_object, destroy_sandbox, mark_destroyed, insert_artifact,
  insert_evidence, update_drill, insert_report, commit_final, db_error,
}
use restoreguard.Worker.Flow.{Flow, go, stop, pure, unless_error, finally}
use restoreguard.Worker.Flow.Ends.{
  EndsAt, Ends, CallEnds, Ends-bind, Ends-unless_error, Ends-finally,
}
use restoreguard.Worker.Database.{transition, record_step_row, fail, set_terminal}
use restoreguard.Worker.Run.Success.{destroy_deferred-drill}
use restoreguard.Worker.Run.{
  Verdict, load_from, no_plan, mark_row, delete_evidence, load_plan, stage_file, fetch_backup,
  open_sandbox, persist_sandbox, restore, validate, store_evidence, close_sandbox, exercise_sandbox,
  keep_evidence, gather, commit_drill, exercise, destroy_deferred, recover, remove_file,
  run_prepared, run_configured, run_unconfigured, run_when, run,
}

-- Every database call of the run that moves the drill succeeds; in particular the run's context is
-- neither cancelled nor timed out at such a call. The other calls may still fail, the context may be
-- done at them, and a user's cancellation may commit before any lock of the row.
pub record Answers (env : Env) : Type 0 where
  pub transitions : (to : DrillStatus) (s : Statement) → db_error env (at_transition to s) ≡ false
  pub steps : db_error env record_step ≡ false
  pub ending : db_error env terminal ≡ false
  pub opening : db_error env begin_final ≡ false
  pub artifact : db_error env insert_artifact ≡ false
  pub evidence : db_error env insert_evidence ≡ false
  pub drill : db_error env update_drill ≡ false
  pub report : db_error env insert_report ≡ false
  pub commit : db_error env commit_final ≡ false

module _ (env : Env) (answers : Answers env) where
  transition-Ends :
      (s t : DrillStatus) (step : String) (n : ℕ)
      → Status.transition s t ≡ no_error
      → CallEnds s t (transition env t step n)
  unfolding transition Status.transition
  transition-Ends s t step n ok = record {
    at = λ w h. ground (
      arith,
      answers.transitions t begin,
      answers.transitions t select,
      answers.transitions t update,
      answers.transitions t insert,
      answers.transitions t commit,
    );
  }

  record_step-Ends :
      (s : DrillStatus) (step : String) (n : ℕ) (summary : String)
      → CallEnds s s (record_step_row env step n summary)
  unfolding record_step_row
  record_step-Ends s step n summary = record { at = λ w h. ground (arith, answers.steps) }

  module _ (A : Type 0) where
    -- `fail` stops with a terminal drill.
    fail-ends :
        (t : DrillStatus) (summary : String) (w : World) → EndsAt t (fail {A = A} env summary w)
    unfolding fail
    fail-ends t summary w = ground (arith, answers.ending)

    -- A stage that fails on a test, and otherwise goes on without touching the drill.
    stage-ends :
        (s : DrillStatus) (test : Bool) (summary : String) (a : A) (w u : World)
        → u.drill.status ≡ s
        → EndsAt s (if test then fail env summary w else (go a, u))
    stage-ends s true summary a w u h = fail-ends s summary w
    stage-ends s false summary a w u h = h

  module _ (s : DrillStatus) where
    load_plan-Ends : Ends s s (load_plan env)
    unfolding load_plan load_from no_plan set_terminal
    load_plan-Ends = record { at = λ w h. ground (arith, answers.ending) }

    stage_file-Ends : Ends s s (stage_file env)
    unfolding stage_file
    stage_file-Ends = record { at = λ w h. stage-ends _ s _ _ _ w _ h }

    fetch_backup-Ends : Ends s s (fetch_backup env)
    unfolding fetch_backup
    fetch_backup-Ends = record {
      at = λ w h.
          if_either (λ (r : Flow Bytes × World). EndsAt s r) (env.fails get_object)
            (fail-ends Bytes s "Backup artifact could not be opened" w)
            (stage-ends _ s _ _ _ w _ h);
    }

    open_sandbox-Ends : Ends s s (open_sandbox env)
    unfolding open_sandbox
    open_sandbox-Ends = record { at = λ w h. stage-ends _ s _ _ _ _ _ h }

    persist_sandbox-Ends : Ends s s (persist_sandbox env)
    unfolding persist_sandbox
    persist_sandbox-Ends = record { at = λ w h. stage-ends _ s _ _ _ w _ h }

    restore-Ends : Ends s s (restore env)
    unfolding restore
    restore-Ends = record { at = λ w h. stage-ends _ s _ _ _ w _ h }

    validate-Ends : Ends s s (validate env)
    unfolding validate
    validate-Ends = record { at = λ w h. stage-ends _ s _ _ _ w _ h }

    store_evidence-Ends : (key : String) (bytes : Bytes) → Ends s s (store_evidence env key bytes)
    unfolding store_evidence
    store_evidence-Ends key bytes = record { at = λ w h. stage-ends _ s _ _ _ _ _ h }

    close_sandbox-Ends : Ends s s (close_sandbox env)
    unfolding close_sandbox mark_row
    close_sandbox-Ends = record {
      at = λ w h.
          if_either (λ (r : Flow (Unit {0}) × World). EndsAt s r) (env.fails destroy_sandbox)
            (fail-ends (Unit {0}) s "Sandbox cleanup failed" (delete_evidence env w))
            (marked (db_error env mark_destroyed) w h);
    }
      where
        marked :
            (b : Bool) (w : World)
            → w.drill.status ≡ s
            → (mark_row b (record w { sandbox = none })).drill.status ≡ s
        marked true w h = h
        marked false w h = h

    pure-Ends : {A : Type 0} (a : A) → Ends s s (pure a)
    pure-Ends a = record { at = λ w h. h }

  commit_drill-Ends :
      (v : Verdict) (i : ObjectInfo) → Ends finalizing succeeded (commit_drill env v i)
  unfolding commit_drill
  commit_drill-Ends v i = record {
    at = λ w h. ground (
      arith, answers.opening, answers.artifact, answers.evidence, answers.drill, answers.report,
      answers.commit,
    );
  }

  moves-Ends :
      (s t : DrillStatus) (step : String) (n : ℕ)
      → Status.transition s t ≡ no_error
      → Ends s t (unless_error (transition env t step n))
  moves-Ends s t step n ok = Ends-unless_error _ (transition-Ends s t step n ok)

  exercise_sandbox-Ends : Ends preparing validating (exercise_sandbox env)
  unfolding exercise_sandbox Status.transition
  exercise_sandbox-Ends = Ends-bind (persist_sandbox env) _ (persist_sandbox-Ends preparing) λ _.
      Ends-bind
        (unless_error
          (record_step_row env "CREATE_SANDBOX" 2 "Isolated Docker sandbox became ready"))
        _ (Ends-unless_error _ (record_step-Ends preparing _ 2 _))
        λ _.
          Ends-bind (unless_error (transition env restoring "RESTORE_POSTGRES" 3)) _
            (moves-Ends preparing restoring _ 3 refl)
            λ _. Ends-bind (restore env) _ (restore-Ends restoring) λ _.
              Ends-bind (unless_error (transition env validating "POSTGRES_CONNECTIVITY" 4)) _
                (moves-Ends restoring validating _ 4 refl) λ _. validate-Ends validating

  keep_evidence-Ends :
      (key : String) (bytes : Bytes) (v : Verdict)
      → Ends finalizing finalizing (keep_evidence env key bytes v)
  unfolding keep_evidence
  keep_evidence-Ends key bytes v =
      Ends-bind (store_evidence env key bytes) _ (store_evidence-Ends finalizing key bytes) λ i.
        Ends-bind (close_sandbox env) _ (close_sandbox-Ends finalizing)
          λ _. pure-Ends finalizing (v, i)

  gather-Ends :
      (id : String) (t : Time) (hash : Bytes) → Ends preparing finalizing (gather env id t hash)
  unfolding gather Status.transition
  gather-Ends id t hash = Ends-bind (exercise_sandbox env) _ exercise_sandbox-Ends λ r.
      Ends-bind (unless_error (transition env finalizing "COLLECT_EVIDENCE" 5)) _
        (moves-Ends validating finalizing _ 5 refl) λ _. keep_evidence-Ends _ _ _

  exercise-Ends :
      (id : String) (t : Time) (hash : Bytes) → Ends preparing succeeded (exercise env id t hash)
  unfolding exercise
  exercise-Ends id t hash =
      Ends-bind (gather env id t hash) _ (gather-Ends id t hash) λ r. commit_drill-Ends r.0 r.1

  recover-Ends : (id : String) (t : Time) → Ends preparing succeeded (recover env id t)
  unfolding recover
  recover-Ends id t = Ends-bind (fetch_backup env) _ (fetch_backup-Ends preparing) λ hash.
      Ends-bind (open_sandbox env) _ (open_sandbox-Ends preparing) λ _.
        Ends-finally (exercise env id t hash) (destroy_deferred env) (destroy_deferred-drill env)
          (exercise-Ends id t hash)

  configured-Ends : (id : String) → Ends queued succeeded (run_configured env id)
  unfolding run_configured run_prepared remove_file Status.transition
  configured-Ends id =
      Ends-bind (unless_error (transition env preparing "FETCH_BACKUP" 1)) _
        (moves-Ends queued preparing _ 1 refl)
        λ _. Ends-bind (load_plan env) _ (load_plan-Ends preparing) λ t.
          Ends-bind (stage_file env) (λ _. finally (recover env id t) remove_file)
            (stage_file-Ends preparing)
            λ _. Ends-finally (recover env id t) remove_file (λ w. refl) (recover-Ends id t)

  -- Where an action stops or goes on to a terminal status the drill is over.
  over :
      {A : Type 0} (r : Flow A × World) → EndsAt succeeded r → is_terminal r.1.drill.status ≡ true
  over (stop, w) e = e
  over (go a, w) e = cc (ap is_terminal e)

  unconfigured-over : (w : World) → is_terminal (run_unconfigured env w).1.drill.status ≡ true
  unfolding run_unconfigured set_terminal
  unconfigured-over w = ground (arith, answers.ending)

  when-over :
      (b : Bool) (id : String) (w : World)
      → w.drill.status ≡ queued
      → is_terminal (run_when b env id w).1.drill.status ≡ true
  unfolding run_when
  when-over true id w q = over (run_configured env id w) ((configured-Ends id).at w q)
  when-over false id w q = unconfigured-over w

  -- As long as every database call that moves the drill or records its steps and results succeeds,
  -- so that the run's context is not cancelled or timed out at any of these: a run of a queued drill
  -- ends with the drill in a terminal status, whatever other calls fail and whenever a user's
  -- cancellation commits before the row is locked.
  pub run-ends :
      (id : String) (w : World)
      → w.drill.status ≡ queued
      → is_terminal (run env id w).drill.status ≡ true
  unfolding run
  run-ends id w q = when-over env.configured id (record w { registered = true }) q
