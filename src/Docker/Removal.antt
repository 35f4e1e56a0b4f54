-- ===== src/Docker/Removal.antt =====
-- The commands of Destroy.
use Prim.Native.String.{String, [], ◌∷◌}
use restoreguard.Common.{
  ℕ, ◌≡◌, refl, sym, ap, ◌∙◌, subst, inr, Bool, true, false, ◌&&◌, ◌||◌, not, if_either, if_cases,
  arith,
}
use restoreguard.Common
use restoreguard.Worker.World.{Sandbox}
use restoreguard.Docker.Names.{is_managed, is_empty, is_managed-resource_name}
use restoreguard.Docker.Confinement.{Leaves, create-Leaves}
use restoreguard.Docker.Executor.{
  create, Command, Log, SandboxSpec, Executor, remove_container, remove_network, remove_volume,
  sandbox_of, destroy, remove, remove_all, is_foreign, run_command,
}

-- The removal of one resource with a managed name.
pub data IsRemoval : Command → Type 0 where
  container : {name : String} → is_managed name ≡ true → IsRemoval (remove_container name)
  network : {name : String} → is_managed name ≡ true → IsRemoval (remove_network name)
  volume : {name : String} → is_managed name ≡ true → IsRemoval (remove_volume name)

-- Every command after the first log is such a removal.
pub data Removals : Log → Log → Type 0 where
  begin : {log : Log} → Removals log log
  next :
      {log after : Log} {c : Command}
      → Removals log after
      → IsRemoval c
      → Removals log (Common.◌∷◌ c after)

-- A name that Destroy does not refuse.
abbrev Accepted : String → Type 0
Accepted name = is_foreign name ≡ false

is_managed-Accepted :
    (name : String) → Accepted name → is_empty name ≡ false → is_managed name ≡ true
is_managed-Accepted name a n = ground (arith, n)

module _ (e : Executor) where
  remove-Removals :
      (start : Log) (name : String) (c : Command) (absent : String) (log : Log)
      → (is_managed name ≡ true → IsRemoval c)
      → Accepted name
      → Removals start log
      → Removals start (remove e name c absent log).1
  unfolding remove run_command
  remove-Removals start name c absent log ok a h =
      if_cases (λ (r : Bool × Log). Removals start r.1) (is_empty name) (λ _. h)
        (λ n. next h (ok (is_managed-Accepted name a n)))

  -- Whatever the sandbox, each command that Destroy runs removes one container, network or volume
  -- whose name begins with the prefix of the program.
  pub destroy-Removals : (s : Sandbox) (log : Log) → Removals log (destroy e s log).1
  unfolding destroy remove_all
  destroy-Removals s log =
      if_cases (λ (r : Bool × Log). Removals log r.1)
        (is_foreign s.container_name || is_foreign s.network_name || is_foreign s.volume_name)
        (λ _. begin)
        λ h.
          let one =
            remove-Removals log s.container_name (remove_container s.container_name)
              "No such container" log container (ground (arith, h)) begin in
          let two =
            remove-Removals log s.network_name (remove_network s.network_name) "not found" _ network
              (ground (arith, h)) one in
          remove-Removals log s.volume_name (remove_volume s.volume_name) "no such volume" _ volume
            (ground (arith, h)) two

is_empty-is_managed : (name : String) → is_managed name ≡ true → is_empty name ≡ false
is_empty-is_managed [] h = cc h
is_empty-is_managed (c ∷ cs) h = refl

-- The commands that remove the three resources of a sandbox.
abbrev pub removals : Sandbox → Log → Log
removals s log = Common.◌∷◌ (remove_volume s.volume_name) (
    Common.◌∷◌ (remove_network s.network_name) (Common.◌∷◌ (remove_container s.container_name) log))

Accepted-is_managed : (name : String) → is_managed name ≡ true → Accepted name
Accepted-is_managed name h = ground (arith, h)

module _ (e : Executor) where
  remove-log :
      (name : String) (c : Command) (absent : String) (log : Log)
      → is_empty name ≡ false
      → (remove e name c absent log).1 ≡ Common.◌∷◌ c log
  unfolding remove run_command
  remove-log name c absent log n = rw n

  destroy-log :
      (s : Sandbox) (log : Log)
      → is_managed s.container_name ≡ true
      → is_managed s.network_name ≡ true
      → is_managed s.volume_name ≡ true
      → (destroy e s log).1 ≡ removals s log
  unfolding destroy remove_all
  destroy-log s log c n v =
      if_cases (λ (r : Bool × Log). r.1 ≡ removals s log)
        (is_foreign s.container_name || is_foreign s.network_name || is_foreign s.volume_name)
        (λ h. cc (
          h,
          Accepted-is_managed s.container_name c,
          Accepted-is_managed s.network_name n,
          Accepted-is_managed s.volume_name v,
        ))
        (λ _.
          remove-log s.volume_name (remove_volume s.volume_name) "no such volume" _
            (is_empty-is_managed s.volume_name v)
          ∙ ap (λ l. Common.◌∷◌ (remove_volume s.volume_name) l)
              (remove-log s.network_name (remove_network s.network_name) "not found" _
                  (is_empty-is_managed s.network_name n)
                ∙ ap (λ l. Common.◌∷◌ (remove_network s.network_name) l)
                    (remove-log s.container_name (remove_container s.container_name)
                      "No such container" log (is_empty-is_managed s.container_name c))))

  -- Destroy of a sandbox that Create returned removes its container, its network and its volume, and
  -- runs no other command.
  pub create-destroy :
      (spec : SandboxSpec) (sleeps : ℕ) (log after : Log) (s : Sandbox)
      → create e spec sleeps log ≡ (inr s, after)
      → (destroy e s after).1 ≡ removals s after
  create-destroy spec sleeps log after s h =
      let (_, same, _) = subst (Leaves e spec log) h (create-Leaves e spec sleeps log) in
      subst (λ s. (destroy e s after).1 ≡ removals s after) (sym same)
        (destroy-log (sandbox_of e spec) after
          (is_managed-resource_name spec.drill_id e.suffix "-pg")
          (is_managed-resource_name spec.drill_id e.suffix "-net")
          (is_managed-resource_name spec.drill_id e.suffix "-data"))
