-- ===== src/Worker/Examples.antt =====
-- The theorems on backend/internal/drill/worker.go at concrete runs.
use restoreguard.Common.{
  ◌*◌, ◌≤◌, ◌≡◌, refl, ◌⊎◌, Bool, true, false, none, some, [], ◌∷◌, length, arith,
}
use restoreguard.Common.Int.{pos}
use restoreguard.Domain.Status.{DrillStatus, queued, succeeded, cancelled}
use restoreguard.Domain.Lifecycle.{is_terminal}
use restoreguard.Domain.Recovery.{nanos, unset}
use restoreguard.Domain.Examples.{exact_conversion}
use restoreguard.Worker.World.{
  Bytes, Drill, Sandbox, World, Point, PlanRow, Env, restore_backup, cleanup,
}
use restoreguard.Domain.Status
use restoreguard.Worker.Database.{transition, record_step_row}
use restoreguard.Worker.Backup.{read_limited, is_rejected, artifact_limit, equal_hash}
use restoreguard.Worker.Backup.Integrity.{accepted_whole, Agrees}
use restoreguard.Worker.Run.{
  run, run_prepared, load_plan, stage_file, remove_file, recover, fetch_backup, open_sandbox,
  destroy_deferred, exercise, gather, exercise_sandbox, persist_sandbox, restore, validate,
  keep_evidence, store_evidence, close_sandbox, commit_drill, decide,
}
use restoreguard.Worker.Run.Progress.{Reaches, run-legal, run-terminal}
use restoreguard.Worker.Run.Success.{Proves, run-success}
use restoreguard.Worker.Run.Ending.{Answers, run-ends}
use restoreguard.Worker.Run.Cleanup.{IsAbandoned, run-swept}
use restoreguard.Worker.Run.Evidence.{IsSettled, run-IsSettled}

abbrev no_point : Point → Bool
no_point p = false

-- A restore that breaks, after which the removal of the sandbox breaks too.
abbrev broken_restore : Point → Bool
broken_restore restore_backup = true
broken_restore _ = false

abbrev dump : Bytes
dump = 67 ∷ 82 ∷ 69 ∷ 65 ∷ 84 ∷ 69 ∷ []

-- A stand-in for the hash, which writes the length.
abbrev length_hash : Bytes → Bytes
length_hash bytes = length bytes ∷ []

abbrev plan : PlanRow
plan = record {
  organization_id = "acme";
  snapshot_at = 100 * nanos;
  checksum = some (6 ∷ []);
  storage_key = "acme/backups/1.sql";
  rpo_target = pos 3600;
  rto_target = pos 600;
  required = "POSTGRES_CONNECTIVITY" ∷ "ROW_COUNT" ∷ [];
}

abbrev fresh_sandbox : Sandbox
fresh_sandbox = record {
  id = "1";
  container_name = "restoreguard-1-pg";
  network_name = "restoreguard-1-net";
  volume_name = "restoreguard-1-data";
  created_at = 200 * nanos;
  ready_at = 205 * nanos;
}

-- A run in which the calls at the given points fail.
abbrev env_with : (Point → Bool) → Env
env_with fails = record {
  configured = true;
  max_artifact_bytes = pos 1000;
  conv = exact_conversion;
  sha256_hex = length_hash;
  marshal = λ payload. 123 ∷ payload.backup_sha256;
  fails = fails;
  done = no_point;
  cancels = λ p. none;
  clock = λ p. 210 * nanos;
  db_now = λ p. 210 * nanos;
  plan = plan;
  artifact = dump;
  artifact_size = 6;
  new_sandbox = fresh_sandbox;
  create_left = false;
  put_left = false;
}

abbrev drill_in : DrillStatus → Drill
drill_in status = record {
  status = status;
  started_at = none;
  completed_at = none;
  measured_rpo = none;
  measured_rto = none;
  rpo_result = unset;
  rto_result = unset;
  recovery_status = none;
  confidence = none;
  summary = "";
  given = [];
  updated_at = 0;
}

abbrev world_in : DrillStatus → World
world_in status = record {
  drill = drill_in status;
  steps = [];
  sandbox_row = none;
  artifact_row = none;
  evidence_row = none;
  report_row = none;
  object = none;
  sandbox = none;
  staged = false;
  registered = false;
  events = [];
}

-- The run that goes well, and the run whose restore breaks.
abbrev good_run : World
good_run = run (env_with no_point) "d1" (world_in queued)

abbrev broken_run : World
broken_run = run (env_with broken_restore) "d1" (world_in queued)

good_run_succeeds : good_run.drill.status ≡ succeeded
unfolding run transition run_prepared load_plan stage_file remove_file recover fetch_backup
    is_rejected artifact_limit read_limited equal_hash open_sandbox destroy_deferred exercise gather
    exercise_sandbox persist_sandbox record_step_row restore validate keep_evidence store_evidence
    close_sandbox commit_drill decide Status.transition
good_run_succeeds = refl

run-success_example : Proves (env_with no_point) good_run
run-success_example =
    run-success (env_with no_point) "d1" (world_in queued) refl (λ e. cc e) good_run_succeeds

run-legal_example : Reaches (drill_in queued) broken_run.drill
run-legal_example = run-legal (env_with broken_restore) "d1" (world_in queued) refl

run-terminal_example :
    (run (env_with no_point) "d1" (world_in cancelled)).drill ≡ drill_in cancelled
run-terminal_example = run-terminal (env_with no_point) "d1" (world_in cancelled) refl

answers : Answers (env_with broken_restore)
answers = record {
  transitions = λ to s. refl;
  steps = refl;
  ending = refl;
  opening = refl;
  artifact = refl;
  evidence = refl;
  drill = refl;
  report = refl;
  commit = refl;
}

run-ends_example : is_terminal broken_run.drill.status ≡ true
run-ends_example = run-ends (env_with broken_restore) answers "d1" (world_in queued) refl

run-swept_example :
    (broken_run.sandbox ≡ none)
    ⊎ ((broken_restore cleanup ≡ true) ⊎ IsAbandoned (env_with broken_restore))
run-swept_example = run-swept (env_with broken_restore) "d1" (world_in queued) refl

run-IsSettled_example : IsSettled (env_with no_point) good_run
run-IsSettled_example =
    run-IsSettled (env_with no_point) refl refl "d1" (world_in queued) (refl, refl)

accepted :
    is_rejected 1000 (length (read_limited 1000 dump)) 6 (some (65 ∷ 66 ∷ [])) (97 ∷ 98 ∷ [])
    ≡ false
unfolding is_rejected read_limited equal_hash
accepted = refl

accepted_whole_example :
    (read_limited 1000 dump ≡ dump)
    × (length dump ≤ 1000)
    × (6 ≡ length dump)
    × Agrees (some (65 ∷ 66 ∷ [])) (97 ∷ 98 ∷ [])
accepted_whole_example =
    accepted_whole 1000 6 dump (97 ∷ 98 ∷ []) (some (65 ∷ 66 ∷ [])) (omega arith) accepted
