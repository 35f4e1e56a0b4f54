-- ===== src/Worker/Run/Success.antt =====
-- What a drill that is recorded as succeeded has shown.
use restoreguard.Common.{
  ◌≡◌, refl, ap, sym, subst, ◌∙◌, ◌≢◌, ◌⊎◌, inl, inr, Bool, true, false, Option, none, some, arith,
  String,
}
use restoreguard.Domain.Status.{queued, preparing, succeeded}
use restoreguard.Domain.Recovery.{Time}
use restoreguard.Worker.World.{Bytes, Drill, Sandbox, ObjectInfo, World, Env}
use restoreguard.Worker.Flow.{Flow, go, finally}
use restoreguard.Worker.Flow.Keeps.{bind_unless_cases}
use restoreguard.Worker.Flow.Inversion.{bind-cases}
use restoreguard.Worker.Database.{transition}
use restoreguard.Worker.Database.Moves.{IsClosed, transition-Keeps, transition-status, not_queued}
use restoreguard.Worker.Run.{
  Verdict, backup_hash, commit_drill, gather, exercise, destroy_when, destroy_deferred, recover,
  fetch_backup, open_sandbox, load_from, no_plan, load_plan, stage_file, run_prepared,
  run_configured, run_when, run, remove_file,
}
use restoreguard.Worker.Run.Keeps.{
  gather-Keeps, load_plan-Keeps, stage_file-Keeps, fetch_backup-Keeps, open_sandbox-Keeps,
}
use restoreguard.Worker.Run.Gather.{
  IsIntact, IsRecovered, IsGathered, verdict, evidence, gather-Goes, fetch-eq-go,
}

-- The row of the drill says what was decided from the start time and the time of recovery.
pub record IsJudged (v : Verdict) (d : Drill) : Type 0 where
  pub rpo : d.measured_rpo ≡ some v.rpo
  pub rto : d.measured_rto ≡ some v.rto
  pub rpo_result : d.rpo_result ≡ v.rpo_result
  pub rto_result : d.rto_result ≡ v.rto_result
  pub assessment : d.recovery_status ≡ some v.assessment
  pub confidence : d.confidence ≡ some v.confidence

-- What a successful drill has shown: the backup passed the test of its size and its checksum, it was
-- restored, the database answered, the evidence object was kept and recorded with its hash, a report
-- was recorded, the sandbox is gone, and the row holds what was decided.
pub record IsProven (env : Env) (d : Drill) (object : Option Bytes) (sandbox : Option Sandbox)
    (evidence_row : Option Bytes) (report_row : Option Time) : Type 0 where
  pub intact : IsIntact env
  pub recovered : IsRecovered env
  pub started : Time
  pub started_at : d.started_at ≡ some started
  pub judged : IsJudged (verdict env started) d
  pub kept : object ≡ some (evidence env started (backup_hash env))
  pub recorded : evidence_row ≡ some (env.sha256_hex (evidence env started (backup_hash env)))
  pub reported : report_row ≢ none
  pub gone : sandbox ≡ none

abbrev pub Proves : Env → World → Type 0
Proves env w = IsProven env w.drill w.object w.sandbox w.evidence_row w.report_row

abbrev NotYet : Drill → Type 0
NotYet d = d.status ≢ succeeded

NotYet-closed : IsClosed NotYet
NotYet-closed = record { next = λ d e m h. ground arith }

-- The drill has started at the given time, has left the queue and has not succeeded.
abbrev IsOpen : Time → Drill → Type 0
IsOpen t d = NotYet d × (d.status ≢ queued) × (d.started_at ≡ some t)

IsOpen-closed : (t : Time) → IsClosed (IsOpen t)
IsOpen-closed t = record {
  next = λ d e m (n, q, s). (ground arith, not_queued d e m.0 q, ground arith);
}

pub destroy_deferred-drill : (env : Env) (w : World) → (destroy_deferred env w).drill ≡ w.drill
unfolding destroy_deferred
destroy_deferred-drill env w = ground arith

module _ (env : Env) (id : String) where
  -- The last transaction either leaves the drill unsuccessful or records all of its results.
  commit_drill-cases :
      (v : Verdict) (i : ObjectInfo) (t : Time) (w : World)
      → w.drill.status ≢ succeeded
      → w.drill.started_at ≡ some t
      → let u = (commit_drill env v i w).1 in
        (u.drill.status ≢ succeeded)
        ⊎ (IsJudged v u.drill
            × (u.drill.started_at ≡ some t)
            × (u.evidence_row ≡ some i.sha256)
            × (u.report_row ≢ none)
            × (u.object ≡ w.object)
            × (u.sandbox ≡ w.sandbox))
  unfolding commit_drill
  commit_drill-cases v i t w n s = ground arith

  -- Success comes with its proof.
  abbrev Warranted : World → Type 0
  Warranted w = w.drill.status ≡ succeeded → Proves env w

  module _ (t : Time) (intact : IsIntact env) where
    commit-Warranted :
        (v : Verdict) (i : ObjectInfo) (w : World)
        → IsOpen t w.drill
        → IsGathered env id t (backup_hash env) v i w
        → Warranted (commit_drill env v i w).1
    commit-Warranted v i w (n, _, s) g done = elim (commit_drill-cases v i t w n s) [
      | inl never ↦ absurd (never done)
      | inr (judged, at, recorded, reported, object, sandbox) ↦ record {
        intact = intact;
        recovered = g.recovered;
        started = t;
        started_at = at;
        judged = subst (λ x. IsJudged x (commit_drill env v i w).1.drill) (sym g.judged) judged;
        kept = object ∙ g.kept;
        recorded = recorded ∙ ap (λ (i : ObjectInfo). some i.sha256) (sym g.described);
        reported = reported;
        gone = sandbox ∙ g.gone;
      }
    ]

    exercise-Warranted :
        (w : World) → IsOpen t w.drill → Warranted (exercise env id t (backup_hash env) w).1
    unfolding exercise
    exercise-Warranted w o =
        let kept =
          (gather-Keeps (IsOpen-closed t) (λ d h. h.1) env id t (backup_hash env)).at w o in
        bind-cases (gather env id t (backup_hash env)) _ w Warranted
          (λ _ done. absurd (kept.0 done))
          (λ r u e.
            commit-Warranted r.0 r.1 u
              (subst (λ (p : Flow (Verdict × ObjectInfo) × World). IsOpen t p.1.drill) e kept)
              ((gather-Goes env id t (backup_hash env)).at w r u e))

    destroy_deferred-gone : (w : World) → w.sandbox ≡ none → destroy_deferred env w ≡ w
    unfolding destroy_deferred
    destroy_deferred-gone w h = rw (h, destroy_when)

    deferred-Warranted : (w : World) → Warranted w → Warranted (destroy_deferred env w)
    deferred-Warranted w h done =
        let proof = h (ap (λ (d : Drill). d.status) (sym (destroy_deferred-drill env w)) ∙ done) in
        subst (Proves env) (sym (destroy_deferred-gone w proof.gone)) proof

  recover-Warranted : (t : Time) (w : World) → IsOpen t w.drill → Warranted (recover env id t w).1
  unfolding recover
  recover-Warranted t w o =
      let fetched = (fetch_backup-Keeps (IsOpen-closed t) (λ d h. h.1) env).at w o in
      bind-cases (fetch_backup env) _ w Warranted (λ _ done. absurd (fetched.0 done))
        λ hash u e.
          let (intact, same) = fetch-eq-go env w e in
          let o₁ = subst (λ (p : Flow Bytes × World). IsOpen t p.1.drill) e fetched in
          let opened = (open_sandbox-Keeps (IsOpen-closed t) (λ d h. h.1) env).at u o₁ in
          bind-cases (open_sandbox env) _ u Warranted (λ _ done. absurd (opened.0 done))
            λ _ v k.
              let o₂ = subst (λ (p : Flow (Unit {0}) × World). IsOpen t p.1.drill) k opened in
              subst (λ h. Warranted (destroy_deferred env (exercise env id t h v).1)) same
                (deferred-Warranted t intact (exercise env id t (backup_hash env) v).1
                  (exercise-Warranted t intact v o₂))

  -- A plan is loaded only for a drill with a start time, which it returns.
  load_from-some :
      (o : Option Time) (w : World) {t : Time} {u : World}
      → load_from env o w ≡ (go t, u)
      → (o ≡ some t) × (u ≡ w)
  unfolding load_from no_plan
  load_from-some o w h = ground arith

  load_plan-IsOpen :
      (w : World) (t : Time) (u : World)
      → NotYet w.drill
      → w.drill.status ≢ queued
      → load_plan env w ≡ (go t, u)
      → IsOpen t u.drill
  unfolding load_plan
  load_plan-IsOpen w t u n q e =
      let (s, same) = load_from-some w.drill.started_at w e in
      subst (λ (x : World). IsOpen t x.drill) (sym same) (n, q, s)

  -- The drill has left the queue and has not succeeded.
  abbrev IsUnfinished : Drill → Type 0
  IsUnfinished d = NotYet d × (d.status ≢ queued)

  IsUnfinished-closed : IsClosed IsUnfinished
  IsUnfinished-closed = record {
    next = λ d e m (n, q). (NotYet-closed.next d e m n, not_queued d e m.0 q);
  }

  prepared-Warranted : (w : World) → IsUnfinished w.drill → Warranted (run_prepared env id w).1
  unfolding run_prepared remove_file
  prepared-Warranted w (n, q) =
      let loaded = (load_plan-Keeps IsUnfinished-closed (λ d h. h.1) env).at w (n, q) in
      bind-cases (load_plan env) _ w Warranted (λ _ done. absurd (loaded.0 done))
        λ t u e.
          let o = load_plan-IsOpen w t u n q e in
          let staged = (stage_file-Keeps (IsOpen-closed t) (λ d h. h.1) env).at u o in
          bind-cases (stage_file env) (λ _. finally (recover env id t) remove_file) u Warranted
            (λ _ done. absurd (staged.0 done))
            λ _ v k done.
              recover-Warranted t v
                (subst (λ (p : Flow (Unit {0}) × World). IsOpen t p.1.drill) k staged) done

  configured-Warranted : (w : World) → NotYet w.drill → Warranted (run_configured env id w).1
  unfolding run_configured
  configured-Warranted w n =
      let call = transition env preparing "FETCH_BACKUP" 1 in
      let kept = (transition-Keeps NotYet-closed env preparing "FETCH_BACKUP" 1 refl).at w n in
      bind_unless_cases Warranted call (λ _. run_prepared env id) w (λ _ done. absurd (kept done))
        (λ ok.
          prepared-Warranted (call w).1
            (kept, λ q. ground (arith, transition-status env preparing "FETCH_BACKUP" 1 w ok)))

  when-Warranted :
      (b : Bool) (w : World) → b ≡ true → NotYet w.drill → Warranted (run_when b env id w).1
  unfolding run_when
  when-Warranted true w c n = configured-Warranted w n
  when-Warranted false w c n = cc

  -- Whatever fails and whenever the drill is cancelled: when a run of a configured worker leaves a
  -- drill succeeded that was not so before, then the backup passed the test of its size and its
  -- checksum, it was restored and the database answered, the evidence object is kept and recorded
  -- with its hash, a report is recorded, the sandbox is gone, and the row holds the measurements,
  -- policy results, assessment and confidence that were decided from its start time.
  pub run-success :
      (w : World)
      → env.configured ≡ true
      → w.drill.status ≢ succeeded
      → (run env id w).drill.status ≡ succeeded
      → Proves env (run env id w)
  unfolding run
  run-success w c n done = when-Warranted env.configured (record w { registered = true }) c n done
