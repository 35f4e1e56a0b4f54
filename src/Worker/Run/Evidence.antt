-- ===== src/Worker/Run/Evidence.antt =====
-- The evidence object and the rows that record it.
use restoreguard.Common.{
  ◌≡◌, ap, sym, subst, ◌∙◌, ◌⊎◌, inl, inr, ◌&&◌, Bool, true, false, none, some, arith, String,
}
use restoreguard.Domain.Status.{preparing, finalizing, succeeded, inconclusive}
use restoreguard.Domain.Recovery.{Time}
use restoreguard.Worker.World.{Bytes, ObjectInfo, World, Env, delete_object, put_evidence, terminal}
use restoreguard.Worker.Flow.{Flow, stop, go, finally, unless_error, Action, ◌>>=◌}
use restoreguard.Worker.Flow.Keeps.{Keeps, Keeps-unless_error}
use restoreguard.Worker.Flow.Inversion.{bind_at, bind-cases}
use restoreguard.Worker.Database.{transition, fail}
use restoreguard.Worker.Run.{
  Verdict, exercise_sandbox, load_plan, stage_file, run_prepared, run_configured, run_unconfigured,
  mark_row, store_evidence, close_sandbox, keep_evidence, gather, commit_drill, exercise,
  fetch_backup, open_sandbox, destroy_deferred, recover, remove_file, run_when, run,
}
use restoreguard.Worker.Run.Gather.{evidence, gather-Goes}
use restoreguard.Worker.Run.Frame.{
  Framed, transition-holds, fetch_backup-holds, exercise_sandbox-holds, load_plan-holds,
  stage_file-holds, set_terminal-holds,
}

-- What the last transaction records of the evidence object.
abbrev IsRecorded : Env → World → Type 0
IsRecorded env w =
    (bytes : Bytes) × (w.object ≡ some bytes)
    × (w.evidence_row ≡ some (env.sha256_hex bytes))
    × (w.drill.status ≡ succeeded)

abbrev IsBlank : World → Type 0
IsBlank w = (w.object ≡ none) × (w.evidence_row ≡ none)

-- Either nothing is kept and nothing is recorded, or the kept object is recorded by a success.
abbrev pub IsSettled : Env → World → Type 0
IsSettled env w = IsBlank w ⊎ IsRecorded env w

-- The object is there once the evidence is kept; the row is not yet.
abbrev IsBlankAt : {A : Type 0} → Flow A × World → Type 0
IsBlankAt (stop, w) = IsBlank w
IsBlankAt (go a, w) = w.evidence_row ≡ none

of_stop : {A : Type 0} (p : Flow A × World) → p.0 ≡ stop → IsBlankAt p → IsBlank p.1
of_stop (stop, w) e h = h
of_stop (go a, w) e h = cc

of_go :
    {A : Type 0} (p : Flow A × World) {a : A} {u : World}
    → p ≡ (go a, u)
    → IsBlankAt p
    → u.evidence_row ≡ none
of_go p e h = subst IsBlankAt e h

module _ (env : Env) (deletes : env.fails delete_object ≡ false)
    (puts : (env.fails put_evidence && env.put_left) ≡ false) where
  IsBlank-respects : (w u : World) → Framed w u → IsBlank w → IsBlank u
  IsBlank-respects w u f h = (f.object ∙ h.0, f.evidence_row ∙ h.1)

  store_evidence-IsBlankAt :
      (key : String) (bytes : Bytes) (w : World)
      → IsBlank w
      → IsBlankAt (store_evidence env key bytes w)
  unfolding store_evidence fail
  store_evidence-IsBlankAt key bytes w h = ground (arith, puts)

  close_sandbox-IsBlankAt : (w : World) → w.evidence_row ≡ none → IsBlankAt (close_sandbox env w)
  unfolding close_sandbox fail mark_row
  close_sandbox-IsBlankAt w h = ground (arith, deletes)

  commit_drill-consistent :
      (v : Verdict) (i : ObjectInfo) (w : World)
      → w.evidence_row ≡ none
      → let u = (commit_drill env v i w).1 in
        IsBlank u
        ⊎ ((u.object ≡ w.object) × (u.evidence_row ≡ some i.sha256) × (u.drill.status ≡ succeeded))
  unfolding commit_drill
  commit_drill-consistent v i w h = ground (arith, deletes)

  keep_evidence-IsBlankAt :
      (key : String) (bytes : Bytes) (v : Verdict) (w : World)
      → IsBlank w
      → IsBlankAt (keep_evidence env key bytes v w)
  unfolding keep_evidence
  keep_evidence-IsBlankAt key bytes v w h =
      let stored = store_evidence-IsBlankAt key bytes w h in
      bind_at (store_evidence env key bytes) _ w IsBlankAt
        (λ e. of_stop (store_evidence env key bytes w) e stored)
        λ i u e.
          let closed = close_sandbox-IsBlankAt u (of_go _ e stored) in
          bind_at (close_sandbox env) _ u IsBlankAt (λ k. of_stop (close_sandbox env u) k closed)
            (λ x v k. of_go _ k closed)

  gather-IsBlankAt :
      (id : String) (t : Time) (hash : Bytes) (w : World)
      → IsBlank w
      → IsBlankAt (gather env id t hash w)
  unfolding gather
  gather-IsBlankAt id t hash w h =
      let ran = (exercise_sandbox-holds env IsBlank-respects).at w h in
      bind_at (exercise_sandbox env) _ w IsBlankAt (λ _. ran)
        λ r u e.
          let moved = unless_error (transition env finalizing "COLLECT_EVIDENCE" 5) in
          let kept =
            (Keeps-unless_error _
                (transition-holds env IsBlank-respects finalizing "COLLECT_EVIDENCE" 5)).at
              u (subst (λ (p : Flow Time × World). IsBlank p.1) e ran) in
          bind_at moved _ u IsBlankAt (λ _. kept)
            (λ _ v k.
              keep_evidence-IsBlankAt _ _ _ v
                (subst (λ (p : Flow (Unit {0}) × World). IsBlank p.1) k kept))

  exercise-IsSettled :
      (id : String) (t : Time) (hash : Bytes) (w : World)
      → IsBlank w
      → IsSettled env (exercise env id t hash w).1
  unfolding exercise
  exercise-IsSettled id t hash w h =
      let gathered = gather-IsBlankAt id t hash w h in
      bind-cases (gather env id t hash) _ w (IsSettled env)
        (λ e. inl (of_stop (gather env id t hash w) e gathered))
        λ r u e.
          let g = (gather-Goes env id t hash).at w r u e in
          elim (commit_drill-consistent r.0 r.1 u (of_go _ e gathered)) [
            | inl blank ↦ inl blank
            | inr (object, row, done) ↦ inr (
              evidence env t hash,
              object ∙ g.kept,
              row ∙ ap (λ (i : ObjectInfo). some i.sha256) (sym g.described),
              done,
            )
          ]

  -- A stage that leaves the evidence alone, before one that settles it.
  then_settles :
      {A B : Type 0} (m : Action A) (f : A → Action B) (w : World)
      → Keeps IsBlank m
      → ((a : A) (u : World) → IsBlank u → IsSettled env (f a u).1)
      → IsBlank w
      → IsSettled env ((m >>= f) w).1
  then_settles {A} {B} m f w km kf h =
      bind-cases m f w (IsSettled env) (λ _. inl (km.at w h))
        (λ a u e. kf a u (subst (λ (p : Flow A × World). IsBlank p.1) e (km.at w h)))

  open_sandbox-Keeps : Keeps IsBlank (open_sandbox env)
  unfolding open_sandbox fail
  open_sandbox-Keeps = record { at = λ w h. ground arith }

  destroy_deferred-IsSettled :
      (w : World) → IsSettled env w → IsSettled env (destroy_deferred env w)
  unfolding destroy_deferred
  destroy_deferred-IsSettled w (inl h) = inl (ground arith)
  destroy_deferred-IsSettled w (inr (b, o, r, d)) =
      inr (b, ground arith, ground arith, ground arith)

  recover-IsSettled :
      (id : String) (t : Time) (w : World) → IsBlank w → IsSettled env (recover env id t w).1
  unfolding recover
  recover-IsSettled id t w =
      then_settles (fetch_backup env) _ w (fetch_backup-holds env IsBlank-respects) λ hash u.
        then_settles (open_sandbox env)
          (λ _. finally (exercise env id t hash) (destroy_deferred env)) u open_sandbox-Keeps
          λ _ v h.
            destroy_deferred-IsSettled (exercise env id t hash v).1
              (exercise-IsSettled id t hash v h)

  configured-IsSettled :
      (id : String) (w : World) → IsBlank w → IsSettled env (run_configured env id w).1
  unfolding run_configured run_prepared remove_file
  configured-IsSettled id w =
      then_settles (unless_error (transition env preparing "FETCH_BACKUP" 1)) _ w
        (Keeps-unless_error _ (transition-holds env IsBlank-respects preparing "FETCH_BACKUP" 1))
        λ _ u. then_settles (load_plan env) _ u (load_plan-holds env IsBlank-respects) λ t v.
          then_settles (stage_file env) (λ _. finally (recover env id t) remove_file) v
            (stage_file-holds env IsBlank-respects) λ _ x h. recover-IsSettled id t x h

  when-IsSettled :
      (b : Bool) (id : String) (w : World) → IsBlank w → IsSettled env (run_when b env id w).1
  unfolding run_when run_unconfigured
  when-IsSettled true id w h = configured-IsSettled id w h
  when-IsSettled false id w h = inl (
      (set_terminal-holds env IsBlank-respects (env.fails terminal) inconclusive
          "No sandbox/object-storage executor is configured; recovery was not attempted").at
        _ ((transition-holds env IsBlank-respects preparing "PREPARE_DRILL" 1).at w h))

  -- A run that starts with no evidence leaves either no evidence object and no evidence row, or an
  -- object whose row holds its hash, beside a drill that succeeded, if deleting an object never
  -- fails and a Put that returns an error has stored nothing.
  pub run-IsSettled : (id : String) (w : World) → IsBlank w → IsSettled env (run env id w)
  unfolding run
  run-IsSettled id w h = when-IsSettled env.configured id (record w { registered = true }) h
