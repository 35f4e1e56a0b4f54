-- ===== src/Worker/Run/Keeps.antt =====
-- What every accepted change of the drill's row keeps, each stage of a run keeps.
use restoreguard.Common.{
  ◌≡◌, refl, sym, subst, ◌≢◌, ◌⊎◌, inl, inr, Bool, true, ◌||◌, Option, none, some, arith, String,
  str_eq, if_either, length, if◌then◌else◌,
}
use restoreguard.Domain.Status.{
  DrillStatus, queued, preparing, restoring, validating, finalizing, succeeded, failed, cancelled,
  inconclusive, no_error,
}
use restoreguard.Domain.Status
use restoreguard.Domain.Recovery.{Time}
use restoreguard.Worker.World.{
  Drill, Sandbox, ready, World, Env, ObjectInfo, Bytes, db_error, terminal, load_row, create_temp,
  get_object, copy, close_temp, create_sandbox, insert_sandbox, copy_backup, restore_backup,
  connectivity, recovery_ready, put_evidence, destroy_sandbox, mark_destroyed, delete_object,
  begin_final, insert_artifact, insert_evidence, update_drill, cleanup, cleanup_mark,
}
use restoreguard.Worker.Flow.{Flow, go}
use restoreguard.Worker.Flow.Keeps.{Keeps, keeps_rules}
use restoreguard.Worker.Database.{fail, interfere}
use restoreguard.Worker.Database.Moves.{
  Moves, IsClosed, Holds, transition-Keeps, interfere-Keeps, record_step-Keeps, set_terminal-Keeps,
  fail-Keeps,
}
use restoreguard.Worker.Backup.{artifact_limit, is_rejected}
use restoreguard.Worker.Run.{
  Verdict, stored_info, no_plan, load_from, load_plan, stage_file, backup_bytes, backup_hash,
  fetch_backup, open_sandbox, persist_sandbox, restore, validate, store_evidence, delete_evidence,
  mark_row, close_sandbox, locked_final, commit_drill, destroy_when, destroy_deferred,
  exercise_sandbox, keep_evidence, gather, exercise, recover, remove_file, run_prepared,
}

locked_final_cases :
    (env : Env) (v : Verdict) (info : ObjectInfo) (w : World)
    → ((locked_final env v info w).1.drill ≡ w.drill)
      ⊎ ((w.drill.status ≡ finalizing) × Moves w.drill (locked_final env v info w).1.drill)
unfolding locked_final Status.transition
locked_final_cases env v info w = ground arith

module _ {P : Drill → Type 0} (closed : IsClosed P)
    (started : (d : Drill) → P d → d.status ≢ queued) (env : Env) where
  module _ {A : Type 0} where
    -- A stage that fails on a test, after a change that leaves the drill, and otherwise goes on.
    stage_after-Keeps :
        (test : Bool) (summary : String) (a : A) (before change : World → World)
        → ((w : World) → Holds P w → Holds P (before w))
        → ((w : World) → Holds P w → Holds P (change w))
        → (w : World) → Holds P w
        → Holds P (if test then fail env summary (before w) else (go a, change w)).1
    stage_after-Keeps test summary a before change j k w h =
        if_either (λ (r : Flow A × World). Holds P r.1) test
          ((fail-Keeps closed env started summary).at (before w) (j w h)) (k w h)

    stage-Keeps :
        (test : Bool) (summary : String) (a : A) (change : World → World)
        → ((w : World) → Holds P w → Holds P (change w))
        → (w : World) → Holds P w
        → Holds P (if test then fail env summary w else (go a, change w)).1
    stage-Keeps test summary a change k w h =
        stage_after-Keeps test summary a (λ v. v) change (λ v g. g) k w h

  no_plan-Keeps : Keeps (Holds P) (no_plan env)
  unfolding no_plan
  no_plan-Keeps = record {
    at = λ w h.
        (set_terminal-Keeps closed env started (db_error env terminal) inconclusive
            "A selected snapshot with a trusted storage key and policy is required" refl).at
          w h;
  }

  load_from-Keeps : (o : Option Time) → Keeps (Holds P) (load_from env o)
  unfolding load_from
  load_from-Keeps none = no_plan-Keeps
  load_from-Keeps (some t) = record {
    at = λ w h.
        if_either (λ (r : Flow Time × World). Holds P r.1)
          (db_error env load_row || str_eq env.plan.storage_key "") (no_plan-Keeps.at w h) h;
  }

  pub load_plan-Keeps : Keeps (Holds P) (load_plan env)
  unfolding load_plan
  load_plan-Keeps = record { at = λ w h. (load_from-Keeps w.drill.started_at).at w h }

  pub stage_file-Keeps : Keeps (Holds P) (stage_file env)
  unfolding stage_file
  stage_file-Keeps = record {
    at =
        stage-Keeps (env.fails create_temp) "Backup staging failed" tt
          (λ w. record w { staged = true }) (λ w h. h);
  }

  pub fetch_backup-Keeps : Keeps (Holds P) (fetch_backup env)
  unfolding fetch_backup
  fetch_backup-Keeps = record {
    at = λ w h.
        if_either (λ (r : Flow Bytes × World). Holds P r.1) (env.fails get_object)
          ((fail-Keeps closed env started "Backup artifact could not be opened").at w h)
          (stage-Keeps
            (env.fails copy
              || env.fails close_temp
              || is_rejected (artifact_limit env.max_artifact_bytes) (length (backup_bytes env))
                  env.artifact_size env.plan.checksum (backup_hash env))
            "Backup artifact integrity validation failed" (backup_hash env) (λ w. w) (λ w h. h) w
            h);
  }

  pub open_sandbox-Keeps : Keeps (Holds P) (open_sandbox env)
  unfolding open_sandbox
  open_sandbox-Keeps = record {
    at =
        stage_after-Keeps (env.fails create_sandbox) "Sandbox creation failed" tt
          (λ w. if env.create_left then record w { sandbox = some env.new_sandbox } else w)
          (λ w. record w { sandbox = some env.new_sandbox })
          (λ w h. if_either (Holds P) env.create_left h h) (λ w h. h);
  }

  persist_sandbox-Keeps : Keeps (Holds P) (persist_sandbox env)
  unfolding persist_sandbox
  persist_sandbox-Keeps = record {
    at =
        stage-Keeps (db_error env insert_sandbox) "Sandbox metadata could not be persisted" tt
          (λ w. record w { sandbox_row = some ready }) (λ w h. h);
  }

  restore-Keeps : Keeps (Holds P) (restore env)
  unfolding restore
  restore-Keeps = record {
    at =
        stage-Keeps (env.fails copy_backup || env.fails restore_backup) "PostgreSQL restore failed"
          tt (λ w. w) (λ w h. h);
  }

  validate-Keeps : Keeps (Holds P) (validate env)
  unfolding validate
  validate-Keeps = record {
    at =
        stage-Keeps (env.fails connectivity) "Required PostgreSQL connectivity validation failed"
          (env.clock recovery_ready) (λ w. w) (λ w h. h);
  }

  store_evidence-Keeps :
      (key : String) (bytes : Bytes) → Keeps (Holds P) (store_evidence env key bytes)
  unfolding store_evidence
  store_evidence-Keeps key bytes = record {
    at =
        stage_after-Keeps (env.fails put_evidence) "Recovery evidence could not be stored"
          (stored_info env key bytes)
          (λ w. if env.put_left then record w { object = some bytes } else w)
          (λ w. record w { object = some bytes }) (λ w h. if_either (Holds P) env.put_left h h)
          (λ w h. h);
  }

  delete_evidence-Keeps : (w : World) → Holds P w → Holds P (delete_evidence env w)
  unfolding delete_evidence
  delete_evidence-Keeps w h = if_either (Holds P) (env.fails delete_object) h h

  mark_row-Keeps : (b : Bool) (w : World) → Holds P w → Holds P (mark_row b w)
  unfolding mark_row
  mark_row-Keeps b w h = if_either (Holds P) b h h

  close_sandbox-Keeps : Keeps (Holds P) (close_sandbox env)
  unfolding close_sandbox
  close_sandbox-Keeps = record {
    at = λ w h.
        if_either (λ (r : Flow (Unit {0}) × World). Holds P r.1) (env.fails destroy_sandbox)
          ((fail-Keeps closed env started "Sandbox cleanup failed").at (delete_evidence env w)
            (delete_evidence-Keeps w h))
          (mark_row-Keeps (db_error env mark_destroyed) (record w { sandbox = none }) h);
  }

  destroy_when-Keeps : (o : Option Sandbox) (w : World) → Holds P w → Holds P (destroy_when env o w)
  unfolding destroy_when
  destroy_when-Keeps none w h = h
  destroy_when-Keeps (some s) w h =
      mark_row-Keeps (env.fails cleanup_mark)
        (if env.fails cleanup then w else record w { sandbox = none })
        (if_either (Holds P) (env.fails cleanup) h h)

  destroy_deferred-Keeps : (w : World) → Holds P w → Holds P (destroy_deferred env w)
  unfolding destroy_deferred
  destroy_deferred-Keeps w h = destroy_when-Keeps w.sandbox w h

  remove_file-Keeps : (w : World) → Holds P w → Holds P (remove_file w)
  unfolding remove_file
  remove_file-Keeps w h = h

  ruleset stage_rules = (
    keeps_rules, load_plan-Keeps, stage_file-Keeps, fetch_backup-Keeps, open_sandbox-Keeps,
    persist_sandbox-Keeps, restore-Keeps, validate-Keeps, store_evidence-Keeps, close_sandbox-Keeps,
    destroy_deferred-Keeps, remove_file-Keeps,
  )

  exercise_sandbox-Keeps : Keeps (Holds P) (exercise_sandbox env)
  unfolding exercise_sandbox
  exercise_sandbox-Keeps =
      search (stage_rules, transition-Keeps closed env, record_step-Keeps closed env) depth 8

  keep_evidence-Keeps :
      (key : String) (bytes : Bytes) (v : Verdict) → Keeps (Holds P) (keep_evidence env key bytes v)
  unfolding keep_evidence
  keep_evidence-Keeps key bytes v = search stage_rules

  pub gather-Keeps :
      (id : String) (t : Time) (hash : Bytes) → Keeps (Holds P) (gather env id t hash)
  unfolding gather
  gather-Keeps id t hash =
      search (keeps_rules, exercise_sandbox-Keeps, keep_evidence-Keeps, transition-Keeps closed env)

  -- The last transaction may also bring the success.
  module _ (final : (d e : Drill) → d.status ≡ finalizing → Moves d e → P d → P e) where
    locked_final-Keeps :
        (v : Verdict) (info : ObjectInfo) (w : World)
        → Holds P w
        → Holds P (locked_final env v info w).1
    locked_final-Keeps v info w h = elim (locked_final_cases env v info w) [
      | inl same ↦ subst P (sym same) h
      | inr (now, moves) ↦ final _ _ now moves h
    ]

    pub commit_drill-Keeps :
        (v : Verdict) (info : ObjectInfo) → Keeps (Holds P) (commit_drill env v info)
    unfolding commit_drill
    commit_drill-Keeps v info = record {
      at = λ w h.
          if_either (λ (r : Flow (Unit {0}) × World). Holds P r.1)
            (db_error env begin_final
              || db_error env insert_artifact
              || db_error env insert_evidence)
            (delete_evidence-Keeps w h)
            (locked_final-Keeps v info (interfere env update_drill w)
              (interfere-Keeps closed env update_drill w h));
    }

    pub exercise-Keeps :
        (id : String) (t : Time) (hash : Bytes) → Keeps (Holds P) (exercise env id t hash)
    unfolding exercise
    exercise-Keeps id t hash = search (keeps_rules, gather-Keeps, commit_drill-Keeps)

    pub prepared-Keeps : (id : String) → Keeps (Holds P) (run_prepared env id)
    unfolding run_prepared recover
    prepared-Keeps id = search (stage_rules, exercise-Keeps) depth 8
