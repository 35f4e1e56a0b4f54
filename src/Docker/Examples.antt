-- ===== src/Docker/Examples.antt =====
-- The theorems on backend/internal/drill/docker.go at a concrete sandbox.
use restoreguard.Common.{◌≡◌, refl, false, [], ◌⊎◌, inr}
use restoreguard.Common.Int.{pos}
use restoreguard.Worker.World.{Sandbox}
use restoreguard.Docker.Names.{safe_identifier, all_safe}
use restoreguard.Docker.Executor.{
  Command, Log, Answer, Executor, SandboxSpec, CreateError, create, create_valid, create_storage,
  create_container, await_ready, poll, sandbox_of, destroy, ready_text, run_command,
}
use restoreguard.Docker.Confinement.{Leaves, create-Leaves}
use restoreguard.Docker.Removal.{Removals, destroy-Removals, removals, create-destroy}

-- Every command succeeds and prints the text that ends the initialization.
abbrev obliging : Log → Command → Answer
obliging log c = (false, ready_text)

abbrev executor : Executor
executor = record {
  allowed_image = "postgres:16";
  runner = obliging;
  suffix = "0123456789ab";
  sandbox_id = "s1";
  created = 1;
  ready = 2;
}

abbrev spec : SandboxSpec
spec = record {
  drill_id = "d1";
  image = "postgres:16";
  cpus = record { not_positive = false; above_four = false; text = "1.00" };
  memory_bytes = pos 536870912;
  memory_text = "536870912";
}

abbrev no_log : Log
no_log = []

abbrev outcome : (CreateError ⊎ Sandbox) × Log
outcome = create executor spec 3 no_log

create-Leaves_example : Leaves executor spec no_log outcome
create-Leaves_example = create-Leaves executor spec 3 no_log

outcome-eq : outcome ≡ (inr (sandbox_of executor spec), outcome.1)
unfolding create create_valid create_storage create_container await_ready poll run_command
    safe_identifier all_safe
outcome-eq = refl

create-destroy_example :
    (destroy executor (sandbox_of executor spec) outcome.1).1
    ≡ removals (sandbox_of executor spec) outcome.1
create-destroy_example =
    create-destroy executor spec 3 no_log outcome.1 (sandbox_of executor spec) outcome-eq

destroy-Removals_example : Removals no_log (destroy executor (sandbox_of executor spec) no_log).1
destroy-Removals_example = destroy-Removals executor (sandbox_of executor spec) no_log
