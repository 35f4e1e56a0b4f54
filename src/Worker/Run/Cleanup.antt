-- ===== src/Worker/Run/Cleanup.antt =====
-- What a run leaves behind: no sandbox, no staged file, and no evidence object without its row.
use restoreguard.Common.{◌≡◌, ◌⊎◌, inl, true, none, arith, String}
use restoreguard.Domain.Recovery.{Time}
use restoreguard.Worker.World.{World, Env, cleanup, create_sandbox}
use restoreguard.Worker.Flow.{stop, finally}
use restoreguard.Worker.Flow.Keeps.{Keeps, Keeps-bind}
use restoreguard.Worker.Flow.Inversion.{bind-cases}
use restoreguard.Worker.Database.{fail}
use restoreguard.Worker.Run.{
  fetch_backup, open_sandbox, exercise, destroy_deferred, recover, remove_file, run,
}
use restoreguard.Worker.Run.Frame.{Framed, fetch_backup-holds, when-holds}

module _ (env : Env) where
  -- Create returned an error and its own cleanup left the sandbox.
  abbrev pub IsAbandoned : Type 0
  IsAbandoned = (env.fails create_sandbox ≡ true) × (env.create_left ≡ true)

  -- Nothing runs in a sandbox any more, or its last removal failed, or Create left it.
  abbrev IsSwept : World → Type 0
  IsSwept w = (w.sandbox ≡ none) ⊎ ((env.fails cleanup ≡ true) ⊎ IsAbandoned)

  IsSwept-respects : (w u : World) → Framed w u → IsSwept w → IsSwept u
  IsSwept-respects w u f h = ground (arith, f.sandbox)

  destroy_deferred-IsSwept : (w : World) → IsSwept (destroy_deferred env w)
  unfolding destroy_deferred
  destroy_deferred-IsSwept w = ground arith

  open_sandbox-stop :
      (w : World) → (open_sandbox env w).0 ≡ stop → IsSwept w → IsSwept (open_sandbox env w).1
  unfolding open_sandbox fail
  open_sandbox-stop w e h = ground arith

  -- The sandbox is created only where the deferred destruction follows.
  recover-IsSwept : (id : String) (t : Time) → Keeps IsSwept (recover env id t)
  unfolding recover
  recover-IsSwept id t =
      Keeps-bind (fetch_backup env) _ (fetch_backup-holds env IsSwept-respects) λ hash. record {
        at = λ w h.
            bind-cases (open_sandbox env)
              (λ _. finally (exercise env id t hash) (destroy_deferred env)) w IsSwept
              (λ e. open_sandbox-stop w e h)
              (λ _ u _. destroy_deferred-IsSwept (exercise env id t hash u).1);
      }

  remove_file-IsSwept : (w : World) → IsSwept w → IsSwept (remove_file w)
  unfolding remove_file
  remove_file-IsSwept w h = h

  -- On every path, a run leaves no live sandbox behind unless the removal in its deferred cleanup
  -- failed, or Create returned an error while its own cleanup, whose errors it ignores, left the
  -- sandbox.
  pub run-swept :
      (id : String) (w : World)
      → w.sandbox ≡ none
      → ((run env id w).sandbox ≡ none) ⊎ ((env.fails cleanup ≡ true) ⊎ IsAbandoned)
  unfolding run
  run-swept id w h =
      (when-holds env IsSwept-respects id (recover-IsSwept id) remove_file-IsSwept
          env.configured).at
        (record w { registered = true }) (inl h)
