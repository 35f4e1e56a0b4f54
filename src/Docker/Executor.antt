-- ===== src/Docker/Executor.antt =====
-- The Docker executor (backend/internal/drill/docker.go): Create, Destroy and the three typed
-- operations, as sequences of commands. The command runner is a parameter that answers each command
-- from the commands before it. The log has the newest command first.
use Prim.Native.String
use Prim.Native.String.find
use text.Mathlib.Text.{find?}
use restoreguard.Common.{
  ℕ, zero, suc, ◌*◌, Bool, true, false, ◌&&◌, ◌||◌, not, none, some, List, [], ◌∷◌, ◌⊎◌, inl, inr,
  str_eq, String, if◌then◌else◌,
}
use restoreguard.Common.Int.{ℤ, pos, ltb_ℤ}
use restoreguard.Domain.Recovery.{Time}
use restoreguard.Worker.World.{Sandbox}
use restoreguard.Docker.Names.{safe_identifier, is_empty, is_managed, resource_name}

-- The arguments of one call of `docker`.
abbrev pub Command : Type 0
Command = List String

abbrev pub Log : Type 0
Log = List Command

-- Whether the command failed, and its output.
abbrev pub Answer : Type 0
Answer = Bool × String

-- What Create reads of the float64 `CPUs`, and the text that strconv gives for it.
pub record Cpus : Type 0 where
  pub not_positive : Bool
  pub above_four : Bool
  pub text : String

pub record SandboxSpec : Type 0 where
  pub drill_id : String
  pub image : String
  pub cpus : Cpus
  pub memory_bytes : ℤ
  pub memory_text : String

pub record Executor : Type 0 where
  pub allowed_image : String
  pub runner : Log → Command → Answer
  -- the answers of the random generator and of the clock
  pub suffix : String
  pub sandbox_id : String
  pub created : Time
  pub ready : Time

pub data CreateError : Type 0 where
  not_allowlisted invalid_spec no_network no_volume no_container not_ready : CreateError

unfoldable pub run_command : Executor → Command → Log → Answer × Log
run_command e c log = (e.runner log c, c ∷ log)

abbrev pub contains : String → String → Bool
contains s t = elim (find? s t) [ none ↦ false | some _ ↦ true ]

abbrev pub network_of : Executor → SandboxSpec → String
network_of e spec = resource_name spec.drill_id e.suffix "-net"

abbrev pub volume_of : Executor → SandboxSpec → String
volume_of e spec = resource_name spec.drill_id e.suffix "-data"

abbrev pub container_of : Executor → SandboxSpec → String
container_of e spec = resource_name spec.drill_id e.suffix "-pg"

abbrev labels : List String → List String
labels rest =
    "--label" ∷ "com.restoreguard.managed=true" ∷ "--label"
    ∷ "com.restoreguard.purpose=restore-sandbox" ∷ rest

abbrev pub create_network : Executor → SandboxSpec → Command
create_network e spec = "network" ∷ "create" ∷ "--internal" ∷ labels (network_of e spec ∷ [])

abbrev pub create_volume : Executor → SandboxSpec → Command
create_volume e spec = "volume" ∷ "create" ∷ labels (volume_of e spec ∷ [])

abbrev pub run_container : Executor → SandboxSpec → Command
run_container e spec =
    "run"
    ∷ "-d"
    ∷ "--name"
    ∷ container_of e spec
    ∷ "--network"
    ∷ network_of e spec
    ∷ "--cpus"
    ∷ spec.cpus.text
    ∷ "--memory"
    ∷ spec.memory_text
    ∷ "--pids-limit"
    ∷ "256"
    ∷ "--read-only"
    ∷ "--tmpfs"
    ∷ "/tmp:rw,noexec,nosuid,size=64m"
    ∷ "--tmpfs"
    ∷ "/var/run/postgresql:rw,nosuid,nodev,size=16m"
    ∷ "--mount"
    ∷ String.◌++◌ "type=volume,source="
        (String.◌++◌ (volume_of e spec) ",target=/var/lib/postgresql/data")
    ∷ labels (
        "--label"
        ∷ String.◌++◌ "com.restoreguard.drill-id=" spec.drill_id
        ∷ "-e"
        ∷ "POSTGRES_PASSWORD=restoreguard-sandbox-only"
        ∷ "-e"
        ∷ "POSTGRES_DB=recovery"
        ∷ spec.image
        ∷ [])

abbrev pub remove_container : String → Command
remove_container name = "rm" ∷ "-f" ∷ name ∷ []

abbrev pub remove_network : String → Command
remove_network name = "network" ∷ "rm" ∷ name ∷ []

abbrev pub remove_volume : String → Command
remove_volume name = "volume" ∷ "rm" ∷ name ∷ []

-- The function `cleanup` of Create: the answers are ignored.
unfoldable pub clean_up : Executor → SandboxSpec → Log → Log
unfolding run_command
clean_up e spec log =
    let log₁ = (run_command e (remove_container (container_of e spec)) log).1 in
    let log₂ = (run_command e (remove_network (network_of e spec)) log₁).1 in
    (run_command e (remove_volume (volume_of e spec)) log₂).1

abbrev pub ready_text : String
ready_text = "PostgreSQL init process complete; ready for start up."

abbrev pub show_logs : Executor → SandboxSpec → Command
show_logs e spec = "logs" ∷ container_of e spec ∷ []

abbrev pub is_ready : Executor → SandboxSpec → Command
is_ready e spec =
    "exec" ∷ container_of e spec ∷ "pg_isready" ∷ "-U" ∷ "postgres" ∷ "-d" ∷ "recovery" ∷ []

-- One turn of the loop up to its `select`; the result tells whether the sandbox is ready.
unfoldable pub poll : Executor → SandboxSpec → Log → Bool × Log
unfolding run_command
poll e spec log =
    let ((failed, output), log₁) = run_command e (show_logs e spec) log in
    if not failed && contains output ready_text
    then (let ((refused, _), log₂) = run_command e (is_ready e spec) log₁ in (not refused, log₂))
    else (false, log₁)

abbrev pub sandbox_of : Executor → SandboxSpec → Sandbox
sandbox_of e spec = record {
  id = e.sandbox_id;
  container_name = container_of e spec;
  network_name = network_of e spec;
  volume_name = volume_of e spec;
  created_at = e.created;
  ready_at = e.ready;
}

-- The loop from the end of a turn on. The context of readiness is done after `sleeps` more sleeps of one second, at most 300 of which fit
-- into its timeout.
unfoldable pub await_ready : Executor → SandboxSpec → ℕ → Bool × Log → (CreateError ⊎ Sandbox) × Log
unfolding poll clean_up
await_ready e spec sleeps (true, log) = (inr (sandbox_of e spec), log)
await_ready e spec zero (false, log) = (inl not_ready, clean_up e spec log)
await_ready e spec (suc n) (false, log) = await_ready e spec n (poll e spec log)

abbrev pub is_valid : SandboxSpec → Bool
is_valid spec =
    safe_identifier spec.drill_id
    && not spec.cpus.not_positive
    && not spec.cpus.above_four
    && not (ltb_ℤ spec.memory_bytes (pos (128 * 1024 * 1024)))
    && not (ltb_ℤ (pos (8 * 1024 * 1024 * 1024)) spec.memory_bytes)

unfoldable pub create_container : Executor → SandboxSpec → ℕ → Log → (CreateError ⊎ Sandbox) × Log
unfolding run_command clean_up poll await_ready
create_container e spec sleeps log =
    let ((failed, _), log₁) = run_command e (run_container e spec) log in
    if failed
    then (inl no_container, clean_up e spec log₁)
    else await_ready e spec sleeps (poll e spec log₁)

unfoldable pub create_storage : Executor → SandboxSpec → ℕ → Log → (CreateError ⊎ Sandbox) × Log
unfolding run_command clean_up create_container
create_storage e spec sleeps log =
    let ((failed, _), log₁) = run_command e (create_volume e spec) log in
    if failed then (inl no_volume, clean_up e spec log₁) else create_container e spec sleeps log₁

unfoldable pub create_valid : Executor → SandboxSpec → ℕ → Log → (CreateError ⊎ Sandbox) × Log
unfolding run_command create_storage
create_valid e spec sleeps log =
    let ((failed, _), log₁) = run_command e (create_network e spec) log in
    if failed then (inl no_network, log₁) else create_storage e spec sleeps log₁

unfoldable pub create : Executor → SandboxSpec → ℕ → Log → (CreateError ⊎ Sandbox) × Log
unfolding create_valid safe_identifier
create e spec sleeps log =
    if not (str_eq spec.image e.allowed_image)
    then (inl not_allowlisted, log)
    else if not (is_valid spec)
    then (inl invalid_spec, log)
    else create_valid e spec sleeps log

abbrev pub is_foreign : String → Bool
is_foreign name = not (is_empty name) && not (is_managed name)

-- One removal of Destroy: whether it counts as an error, and the log.
unfoldable pub remove : Executor → String → Command → String → Log → Bool × Log
unfolding run_command
remove e name command absent log =
    if is_empty name
    then (false, log)
    else (let ((failed, output), log₁) = run_command e command log in
        (failed && not (contains output absent), log₁))

unfoldable pub remove_all : Executor → Sandbox → Log → Bool × Log
unfolding remove
remove_all e s log =
    let (bad₁, log₁) =
      remove e s.container_name (remove_container s.container_name) "No such container" log in
    let (bad₂, log₂) = remove e s.network_name (remove_network s.network_name) "not found" log₁ in
    let (bad₃, log₃) = remove e s.volume_name (remove_volume s.volume_name) "no such volume" log₂ in
    (bad₁ || bad₂ || bad₃, log₃)

-- The result tells whether an error is returned.
unfoldable pub destroy : Executor → Sandbox → Log → Bool × Log
unfolding remove_all
destroy e s log =
    if is_foreign s.container_name || is_foreign s.network_name || is_foreign s.volume_name
    then (true, log)
    else remove_all e s log

-- An operation on a managed container; the result tells whether an error is returned.
unfoldable in_container : Executor → Sandbox → Command → Log → Bool × Log
unfolding run_command
in_container e s command log =
    if not (is_managed s.container_name)
    then (true, log)
    else (let ((failed, _), log₁) = run_command e command log in (failed, log₁))

abbrev copy_command : Sandbox → String → Command
copy_command s local_path =
    "cp" ∷ local_path ∷ String.◌++◌ s.container_name ":/tmp/restoreguard-backup.sql" ∷ []

abbrev psql : Sandbox → List String → Command
psql s rest =
    "exec" ∷ s.container_name ∷ "psql" ∷ "-U" ∷ "postgres" ∷ "-d" ∷ "recovery" ∷ "-v"
    ∷ "ON_ERROR_STOP=1" ∷ rest

unfoldable copy_postgres_backup : Executor → Sandbox → String → Log → Bool × Log
unfolding in_container
copy_postgres_backup e s local_path log = in_container e s (copy_command s local_path) log

unfoldable restore_postgres_plain : Executor → Sandbox → Log → Bool × Log
unfolding in_container
restore_postgres_plain e s log =
    in_container e s (psql s ("-f" ∷ "/tmp/restoreguard-backup.sql" ∷ [])) log

unfoldable validate_postgres_connectivity : Executor → Sandbox → Log → Bool × Log
unfolding in_container
validate_postgres_connectivity e s log = in_container e s (psql s ("-Atc" ∷ "SELECT 1" ∷ [])) log
