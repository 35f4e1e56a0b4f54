-- ===== src/Worker/World.antt =====
-- What a run of a drill reads and writes: the database rows of the drill, the evidence object, the
-- sandbox, the staged backup and the published events (backend/internal/drill/worker.go,
-- executor.go, hub.go, and the rows of migrations/001_initial.sql that the worker touches).
use restoreguard.Common.{ℕ, Bool, Option, List, String, ◌||◌}
use restoreguard.Common.Int.{ℤ}
use restoreguard.Domain.Status.{DrillStatus}
use restoreguard.Domain.Recovery.{Time, SecondsConversion, PolicyResult, Assessment, Confidence}

abbrev pub Bytes : Type 0
Bytes = List ℕ

-- The row of `recovery_drills` that the worker updates.
pub record Drill : Type 0 where
  pub status : DrillStatus
  pub started_at : Option Time
  pub completed_at : Option Time
  pub measured_rpo : Option ℤ
  pub measured_rto : Option ℤ
  pub rpo_result : PolicyResult
  pub rto_result : PolicyResult
  pub recovery_status : Option Assessment
  pub confidence : Option Confidence
  pub summary : String
  pub updated_at : Time
  -- every status that a statement gave the row, in order, which no table keeps
  pub given : List DrillStatus

pub record StepRow : Type 0 where
  pub kind : String
  pub at : Time
  pub summary : String
  pub sequence : ℕ

pub data SandboxStatus : Type 0 where
  ready destroyed : SandboxStatus

pub record Sandbox : Type 0 where
  pub id : String
  pub container_name : String
  pub network_name : String
  pub volume_name : String
  pub created_at : Time
  pub ready_at : Time

pub record ObjectInfo : Type 0 where
  pub key : String
  pub size : ℕ
  pub sha256 : Bytes
  pub content_type : String

-- `drill.progress` with and without a status, and `drill.completed`.
pub data Event : Type 0 where
  progressed : DrillStatus → String → Event
  stepped : String → Event
  completed : DrillStatus → Option Assessment → Event

pub record World : Type 0 where
  pub drill : Drill
  pub steps : List StepRow
  pub sandbox_row : Option SandboxStatus
  pub artifact_row : Option ObjectInfo
  pub evidence_row : Option Bytes
  pub report_row : Option Time
  -- the object under the drill's evidence key
  pub object : Option Bytes
  -- the live Docker resources of the run
  pub sandbox : Option Sandbox
  -- the temporary file of the staged backup
  pub staged : Bool
  -- the entry of `WorkerPool.running`
  pub registered : Bool
  pub events : List Event

-- The statements of the transaction in `transition`.
pub data Statement : Type 0 where
  begin select update insert commit : Statement

-- Every call of a run that can fail or that time passes at.
pub data Point : Type 0 where
  at_transition : DrillStatus → Statement → Point
  terminal failing : Point
  load_row create_temp get_object copy close_temp : Point
  create_sandbox insert_sandbox record_step copy_backup restore_backup : Point
  connectivity recovery_ready put_evidence destroy_sandbox mark_destroyed delete_object : Point
  begin_final insert_artifact insert_evidence update_drill insert_report commit_final : Point
  cleanup cleanup_mark : Point

-- The joined row that the worker selects; `required` is what decoding `required_validations` gives.
pub record PlanRow : Type 0 where
  pub organization_id : String
  pub snapshot_at : Time
  pub checksum : Option Bytes
  pub storage_key : String
  pub rpo_target : ℤ
  pub rto_target : ℤ
  pub required : List String

pub record EvidencePayload : Type 0 where
  pub captured_at : Time
  pub snapshot_at : Time
  pub sandbox_id : String
  pub limitations : List String
  pub measured_rpo : ℤ
  pub measured_rto : ℤ
  pub backup_sha256 : Bytes

-- The environment of one run: what each call answers. It is arbitrary, so a statement for every
-- environment covers every failure, every cancellation and every interleaving with users.
pub record Env : Type 0 where
  -- both the executor and the object storage are configured
  pub configured : Bool
  pub max_artifact_bytes : ℤ
  pub conv : SecondsConversion
  pub sha256_hex : Bytes → Bytes
  pub marshal : EvidencePayload → Bytes
  -- the call at this point returns an error
  pub fails : Point → Bool
  -- the run's context is cancelled or timed out when this point is reached
  pub done : Point → Bool
  -- a user's `CancelDrill` commits just before the row is locked at this point
  pub cancels : Point → Option Time
  pub clock : Point → Time
  pub db_now : Point → Time
  pub plan : PlanRow
  -- the object's bytes, and the size that the object storage reports for it
  pub artifact : Bytes
  pub artifact_size : ℕ
  pub new_sandbox : Sandbox
  -- a Create that returns an error left the container, since the errors of its cleanup are ignored
  pub create_left : Bool
  -- a Put that returns an error has stored the object nevertheless
  pub put_left : Bool

-- A database call under the run's context fails when that context is done.
abbrev pub db_error : Env → Point → Bool
db_error env p = env.done p || env.fails p
