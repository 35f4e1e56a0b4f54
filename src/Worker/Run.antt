-- ===== src/Worker/Run.antt =====
-- `WorkerPool.run` (backend/internal/drill/worker.go), stage by stage.
pub mod Keeps
pub mod Progress
pub mod Gather
pub mod Success
pub mod Ending
pub mod Frame
pub mod Cleanup
pub mod Evidence
use Prim.Native.String
use restoreguard.Common.{
  ℕ, Bool, true, false, not, Option, none, some, List, [], ◌∷◌, ◌++◌, String, ◌||◌, str_eq, length,
  if◌then◌else◌,
}
use restoreguard.Common.Int.{ℤ}
use restoreguard.Domain.Status.{
  DrillStatus, preparing, restoring, validating, finalizing, succeeded, inconclusive,
}
use restoreguard.Domain.Recovery.{
  Time, PolicyResult, Assessment, verified, partially_verified, Confidence, high, medium,
  measure_rpo, measure_rto, evaluate_policy,
}
use restoreguard.Worker.World.{
  Bytes, Drill, SandboxStatus, ready, destroyed, Sandbox, ObjectInfo, completed, World, Point,
  terminal, load_row, create_temp, get_object, copy, close_temp, create_sandbox, insert_sandbox,
  copy_backup, restore_backup, connectivity, recovery_ready, put_evidence, destroy_sandbox,
  mark_destroyed, delete_object, begin_final, insert_artifact, insert_evidence, update_drill,
  insert_report, commit_final, cleanup, cleanup_mark, PlanRow, EvidencePayload, Env, db_error,
}
use restoreguard.Worker.Flow.{
  Flow, stop, go, Action, ◌>>=◌, ◌>>◌, pure, halt, modify, unless_error, ignore, finally,
}
use restoreguard.Worker.Database.{
  interfere, publish, transition, record_step_row, set_terminal, fail,
}
use restoreguard.Worker.Backup.{artifact_limit, read_limited, is_rejected}
unfoldable pub use restoreguard.Worker.Stages.{
  no_plan, load_from, load_plan, stage_file, fetch_backup, open_sandbox, persist_sandbox, restore,
  validate, limitations, judge, decide, store_evidence, delete_evidence, mark_row, close_sandbox,
  abandon, write_final, locked_final, commit_drill, destroy_when, destroy_deferred,
}
pub use restoreguard.Worker.Stages.{
  backup_bytes, backup_hash, evidence_key, payload, stored_info, set_destroyed, upsert_artifact,
  upsert_report, is_finalizing, Verdict,
}

-- The run from the live sandbox to the validated recovery; the result is `recoveryReady`.
unfoldable pub exercise_sandbox : Env → Action Time
exercise_sandbox env = do
  persist_sandbox env
  unless_error (record_step_row env "CREATE_SANDBOX" 2 "Isolated Docker sandbox became ready")
  unless_error (transition env restoring "RESTORE_POSTGRES" 3)
  restore env
  unless_error (transition env validating "POSTGRES_CONNECTIVITY" 4)
  validate env

-- From there to the planned destruction of the sandbox.
unfoldable pub keep_evidence : Env → String → Bytes → Verdict → Action (Verdict × ObjectInfo)
keep_evidence env key bytes v = do
  info ← store_evidence env key bytes
  close_sandbox env
  pure (v, info)

unfoldable pub gather : Env → String → Time → Bytes → Action (Verdict × ObjectInfo)
gather env id started hash = do
  recovered ← exercise_sandbox env
  unless_error (transition env finalizing "COLLECT_EVIDENCE" 5)
  let v = decide env started recovered
  keep_evidence env (evidence_key env.plan.organization_id id) (payload env recovered hash v) v

-- The run from the live sandbox on.
unfoldable pub exercise : Env → String → Time → Bytes → Action (Unit {0})
exercise env id started hash = do (v, info) ← gather env id started hash; commit_drill env v info

unfoldable pub remove_file : World → World
remove_file w = record w { staged = false }

-- The run from the staged file on.
unfoldable pub recover : Env → String → Time → Action (Unit {0})
recover env id started = do
  hash ← fetch_backup env
  open_sandbox env
  finally (exercise env id started hash) (destroy_deferred env)

-- The run from the first transition on.
unfoldable pub run_prepared : Env → String → Action (Unit {0})
run_prepared env id = do
  started ← load_plan env
  stage_file env
  finally (recover env id started) remove_file

unfoldable pub run_configured : Env → String → Action (Unit {0})
run_configured env id = do
  unless_error (transition env preparing "FETCH_BACKUP" 1)
  run_prepared env id

unfoldable pub run_unconfigured : Env → Action (Unit {0})
run_unconfigured env = do
  ignore (transition env preparing "PREPARE_DRILL" 1)
  ignore (
      set_terminal env (env.fails terminal) inconclusive
        "No sandbox/object-storage executor is configured; recovery was not attempted")
  halt

pub run_when : Bool → Env → String → Action (Unit {0})
unfolding run_configured run_unconfigured
run_when true env id = run_configured env id
run_when false env id = run_unconfigured env

unfoldable run_body : Env → String → Action (Unit {0})
unfolding run_when
run_body env id = run_when env.configured env id

-- The whole run: the cancel function is registered, and removed by the first `defer`.
unfoldable pub run : Env → String → World → World
unfolding run_body
run env id w = record (run_body env id (record w { registered = true })).1 { registered = false }
