-- ===== src/Worker/Stages.antt =====
-- The stages of `WorkerPool.run` (backend/internal/drill/worker.go), from loading the plan to the
-- last transaction, and the deferred destruction of the sandbox.
use Prim.Native.String
use restoreguard.Common.{
  Bool, true, false, not, Option, none, some, List, [], ◌∷◌, ◌++◌, String, ◌||◌, str_eq, length,
  if◌then◌else◌,
}
use restoreguard.Common.Int.{ℤ}
use restoreguard.Domain.Status.{DrillStatus, finalizing, succeeded, inconclusive}
use restoreguard.Domain.Recovery.{
  Time, PolicyResult, Assessment, verified, partially_verified, Confidence, high, medium,
  measure_rpo, measure_rto, evaluate_policy,
}
use restoreguard.Worker.World.{
  Bytes, SandboxStatus, ready, destroyed, Sandbox, ObjectInfo, completed, World, terminal, load_row,
  create_temp, get_object, copy, close_temp, create_sandbox, insert_sandbox, copy_backup,
  restore_backup, connectivity, recovery_ready, put_evidence, destroy_sandbox, mark_destroyed,
  delete_object, begin_final, insert_artifact, insert_evidence, update_drill, insert_report,
  commit_final, cleanup, cleanup_mark, Env, db_error,
}
use restoreguard.Worker.Flow.{stop, go, Action}
use restoreguard.Worker.Database.{interfere, publish, set_terminal, fail}
use restoreguard.Worker.Backup.{artifact_limit, read_limited, is_rejected}

unfoldable pub no_plan : Env → Action Time
no_plan env w = (
  stop,
  (set_terminal env (db_error env terminal) inconclusive
      "A selected snapshot with a trusted storage key and policy is required" w).1,
)

-- The joined row; a drill without a start time cannot be scanned.
unfoldable pub load_from : Env → Option Time → Action Time
unfolding no_plan
load_from env none w = no_plan env w
load_from env (some t) w =
    if db_error env load_row || str_eq env.plan.storage_key "" then no_plan env w else (go t, w)

unfoldable pub load_plan : Env → Action Time
unfolding load_from
load_plan env w = load_from env w.drill.started_at w

unfoldable pub stage_file : Env → Action (Unit {0})
stage_file env w =
    if env.fails create_temp
    then fail env "Backup staging failed" w
    else (go tt, record w { staged = true })

abbrev pub backup_bytes : Env → Bytes
backup_bytes env = read_limited (artifact_limit env.max_artifact_bytes) env.artifact

abbrev pub backup_hash : Env → Bytes
backup_hash env = env.sha256_hex (backup_bytes env)

-- Open, copy and check the artifact; the result is its hash.
unfoldable pub fetch_backup : Env → Action Bytes
fetch_backup env w =
    if env.fails get_object
    then fail env "Backup artifact could not be opened" w
    else if env.fails copy
        || env.fails close_temp
        || is_rejected (artifact_limit env.max_artifact_bytes) (length (backup_bytes env))
            env.artifact_size env.plan.checksum (backup_hash env)
    then fail env "Backup artifact integrity validation failed" w
    else (go (backup_hash env), w)

unfoldable pub open_sandbox : Env → Action (Unit {0})
open_sandbox env w =
    if env.fails create_sandbox
    then fail env "Sandbox creation failed"
        (if env.create_left then record w { sandbox = some env.new_sandbox } else w)
    else (go tt, record w { sandbox = some env.new_sandbox })

unfoldable pub persist_sandbox : Env → Action (Unit {0})
persist_sandbox env w =
    if db_error env insert_sandbox
    then fail env "Sandbox metadata could not be persisted" w
    else (go tt, record w { sandbox_row = some ready })

unfoldable pub restore : Env → Action (Unit {0})
restore env w =
    if env.fails copy_backup || env.fails restore_backup
    then fail env "PostgreSQL restore failed" w
    else (go tt, w)

-- The result is `recoveryReady`.
unfoldable pub validate : Env → Action Time
validate env w =
    if env.fails connectivity
    then fail env "Required PostgreSQL connectivity validation failed" w
    else (go (env.clock recovery_ready), w)

unfoldable pub limitations : List String → List String
limitations [] = []
limitations (check ∷ checks) =
    let rest = limitations checks in
    if str_eq check "POSTGRES_CONNECTIVITY"
    then rest
    else String.◌++◌ check " was not configured with a typed validation profile" ∷ rest

unfoldable pub judge : List String → Assessment × Confidence
judge [] = (verified, high)
judge (_ ∷ _) = (partially_verified, medium)

pub record Verdict : Type 0 where
  pub rpo : ℤ
  pub rto : ℤ
  pub rpo_result : PolicyResult
  pub rto_result : PolicyResult
  pub limits : List String
  pub assessment : Assessment
  pub confidence : Confidence

unfoldable pub decide : Env → Time → Time → Verdict
unfolding limitations judge
decide env started recovered =
    let (rpo, rpo_state) = measure_rpo env.conv started env.plan.snapshot_at in
    let (rto, rto_state) = measure_rto env.conv started recovered in
    let limits = limitations env.plan.required in
    let (assessment, confidence) = judge limits in
    record {
      rpo = rpo;
      rto = rto;
      rpo_result = evaluate_policy rpo rpo_state env.plan.rpo_target;
      rto_result = evaluate_policy rto rto_state env.plan.rto_target;
      limits = limits;
      assessment = assessment;
      confidence = confidence;
    }

abbrev pub evidence_key : String → String → String
evidence_key organization id =
    String.◌++◌ organization (String.◌++◌ "/drills/" (String.◌++◌ id "/evidence/recovery.json"))

abbrev pub payload : Env → Time → Bytes → Verdict → Bytes
payload env recovered hash v = env.marshal (record {
  captured_at = recovered;
  snapshot_at = env.plan.snapshot_at;
  sandbox_id = env.new_sandbox.id;
  limitations = v.limits;
  measured_rpo = v.rpo;
  measured_rto = v.rto;
  backup_sha256 = hash;
})

-- What the object storage answers to a successful `Put` of these bytes.
abbrev pub stored_info : Env → String → Bytes → ObjectInfo
stored_info env key bytes = record {
  key = key;
  size = length bytes;
  sha256 = env.sha256_hex bytes;
  content_type = "application/json";
}

unfoldable pub store_evidence : Env → String → Bytes → Action ObjectInfo
store_evidence env key bytes w =
    if env.fails put_evidence
    then fail env "Recovery evidence could not be stored"
        (if env.put_left then record w { object = some bytes } else w)
    else (go (stored_info env key bytes), record w { object = some bytes })

-- `_ = p.deps.Objects.Delete(context.Background(), evidenceKey)`
unfoldable pub delete_evidence : Env → World → World
delete_evidence env w = if env.fails delete_object then w else record w { object = none }

abbrev pub set_destroyed : Option SandboxStatus → Option SandboxStatus
set_destroyed none = none
set_destroyed (some _) = some destroyed

unfoldable pub mark_row : Bool → World → World
mark_row error w = if error then w else record w { sandbox_row = set_destroyed w.sandbox_row }

-- The planned destruction; from then on the deferred one is disarmed.
unfoldable pub close_sandbox : Env → Action (Unit {0})
unfolding delete_evidence mark_row
close_sandbox env w =
    if env.fails destroy_sandbox
    then fail env "Sandbox cleanup failed" (delete_evidence env w)
    else (go tt, mark_row (db_error env mark_destroyed) (record w { sandbox = none }))

-- `return` after the evidence object was deleted.
unfoldable pub abandon : Env → Action (Unit {0})
unfolding delete_evidence
abandon env w = (stop, delete_evidence env w)

-- `ON CONFLICT(storage_key) DO UPDATE SET sha256=EXCLUDED.sha256`
abbrev pub upsert_artifact : Option ObjectInfo → ObjectInfo → ObjectInfo
upsert_artifact none info = info
upsert_artifact (some old) info = record old { sha256 = info.sha256 }

-- `ON CONFLICT(drill_id) DO UPDATE SET status=EXCLUDED.status`
abbrev pub upsert_report : Option Time → Time → Time
upsert_report none now = now
upsert_report (some t) now = t

-- The changes of the last transaction, which are written together when it commits.
unfoldable pub write_final : Env → Verdict → ObjectInfo → World → World
write_final env v info w = record w {
  artifact_row = some (upsert_artifact w.artifact_row info);
  evidence_row = some info.sha256;
  report_row = some (upsert_report w.report_row (env.clock update_drill));
  drill = record w.drill {
    status = succeeded;
    completed_at = some (env.clock update_drill);
    measured_rpo = some v.rpo;
    measured_rto = some v.rto;
    rpo_result = v.rpo_result;
    rto_result = v.rto_result;
    recovery_status = some v.assessment;
    confidence = some v.confidence;
    summary = "Controlled PostgreSQL recovery drill completed under tested conditions";
    updated_at = env.clock update_drill;
    given = w.drill.given ++ succeeded ∷ [];
  };
}

abbrev pub is_finalizing : DrillStatus → Bool
is_finalizing finalizing = true
is_finalizing _ = false

-- From the update of the drill on its row is locked.
unfoldable pub locked_final : Env → Verdict → ObjectInfo → Action (Unit {0})
unfolding abandon write_final publish
locked_final env v info w =
    if db_error env update_drill || not (is_finalizing w.drill.status)
    then abandon env w
    else if db_error env insert_report
    then abandon env w
    else if db_error env commit_final
    then abandon env w
    else (go tt, publish (completed succeeded (some v.assessment)) (write_final env v info w))

unfoldable pub commit_drill : Env → Verdict → ObjectInfo → Action (Unit {0})
unfolding locked_final abandon interfere
commit_drill env v info w =
    if db_error env begin_final || db_error env insert_artifact || db_error env insert_evidence
    then abandon env w
    else locked_final env v info (interfere env update_drill w)

-- The deferred destruction, which is armed while the sandbox of the run is still there.
unfoldable pub destroy_when : Env → Option Sandbox → World → World
unfolding mark_row
destroy_when env none w = w
destroy_when env (some s) w =
    mark_row (env.fails cleanup_mark) (if env.fails cleanup then w else record w { sandbox = none })

unfoldable pub destroy_deferred : Env → World → World
unfolding destroy_when
destroy_deferred env w = destroy_when env w.sandbox w
