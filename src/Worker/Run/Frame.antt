-- ===== src/Worker/Run/Frame.antt =====
-- What the stages of a run leave alone: the evidence, its row and the sandbox.
use restoreguard.Common.{ℕ, ◌≡◌, Bool, true, false, arith, String}
use restoreguard.Domain.Status.{DrillStatus}
use restoreguard.Domain.Recovery.{Time}
use restoreguard.Worker.World.{World, Env}
use restoreguard.Worker.Flow.Keeps.{Keeps, CallKeeps, keeps_rules}
use restoreguard.Worker.Database.{transition, record_step_row, set_terminal, fail}
use restoreguard.Worker.Run.{
  load_from, no_plan, load_plan, stage_file, fetch_backup, persist_sandbox, restore, validate,
  exercise_sandbox, recover, remove_file, run_prepared, run_configured, run_unconfigured, run_when,
}

-- The same object, evidence row and sandbox.
pub record Framed (w u : World) : Type 0 where
  pub object : u.object ≡ w.object
  pub evidence_row : u.evidence_row ≡ w.evidence_row
  pub sandbox : u.sandbox ≡ w.sandbox

module _ (env : Env) where
  transition-Framed :
      (to : DrillStatus) (step : String) (n : ℕ) (w : World)
      → Framed w (transition env to step n w).1
  unfolding transition
  transition-Framed to step n w = ground arith

  record_step-Framed :
      (step : String) (n : ℕ) (summary : String) (w : World)
      → Framed w (record_step_row env step n summary w).1
  unfolding record_step_row
  record_step-Framed step n summary w = ground arith

  set_terminal-Framed :
      (b : Bool) (to : DrillStatus) (summary : String) (w : World)
      → Framed w (set_terminal env b to summary w).1
  unfolding set_terminal
  set_terminal-Framed b to summary w = ground arith

  module _ (A : Type 0) where
    fail-Framed : (summary : String) (w : World) → Framed w (fail {A = A} env summary w).1
    unfolding fail
    fail-Framed summary w = ground arith

  load_plan-Framed : (w : World) → Framed w (load_plan env w).1
  unfolding load_plan load_from no_plan set_terminal
  load_plan-Framed w = ground arith

  stage_file-Framed : (w : World) → Framed w (stage_file env w).1
  unfolding stage_file fail
  stage_file-Framed w = ground arith

  fetch_backup-Framed : (w : World) → Framed w (fetch_backup env w).1
  unfolding fetch_backup fail
  fetch_backup-Framed w = ground arith

  persist_sandbox-Framed : (w : World) → Framed w (persist_sandbox env w).1
  unfolding persist_sandbox fail
  persist_sandbox-Framed w = ground arith

  restore-Framed : (w : World) → Framed w (restore env w).1
  unfolding restore fail
  restore-Framed w = ground arith

  validate-Framed : (w : World) → Framed w (validate env w).1
  unfolding validate fail
  validate-Framed w = ground arith

  -- A statement about the object, the evidence row and the sandbox alone.
  module _ {P : World → Type 0} (respects : (w u : World) → Framed w u → P w → P u) where
    pub transition-holds :
        (to : DrillStatus) (step : String) (n : ℕ) → CallKeeps P (transition env to step n)
    transition-holds to step n = record {
      at = λ w h. respects w _ (transition-Framed to step n w) h;
    }

    record_step-holds :
        (step : String) (n : ℕ) (summary : String)
        → CallKeeps P (record_step_row env step n summary)
    record_step-holds step n summary = record {
      at = λ w h. respects w _ (record_step-Framed step n summary w) h;
    }

    pub set_terminal-holds :
        (b : Bool) (to : DrillStatus) (summary : String)
        → CallKeeps P (set_terminal env b to summary)
    set_terminal-holds b to summary = record {
      at = λ w h. respects w _ (set_terminal-Framed b to summary w) h;
    }

    pub fail-holds : (A : Type 0) (summary : String) → Keeps P (fail {A = A} env summary)
    fail-holds A summary = record { at = λ w h. respects w _ (fail-Framed A summary w) h }

    pub load_plan-holds : Keeps P (load_plan env)
    load_plan-holds = record { at = λ w h. respects w _ (load_plan-Framed w) h }

    pub stage_file-holds : Keeps P (stage_file env)
    stage_file-holds = record { at = λ w h. respects w _ (stage_file-Framed w) h }

    pub fetch_backup-holds : Keeps P (fetch_backup env)
    fetch_backup-holds = record { at = λ w h. respects w _ (fetch_backup-Framed w) h }

    persist_sandbox-holds : Keeps P (persist_sandbox env)
    persist_sandbox-holds = record { at = λ w h. respects w _ (persist_sandbox-Framed w) h }

    restore-holds : Keeps P (restore env)
    restore-holds = record { at = λ w h. respects w _ (restore-Framed w) h }

    validate-holds : Keeps P (validate env)
    validate-holds = record { at = λ w h. respects w _ (validate-Framed w) h }

    pub exercise_sandbox-holds : Keeps P (exercise_sandbox env)
    unfolding exercise_sandbox
    exercise_sandbox-holds =
        search
          (
            keeps_rules, persist_sandbox-holds, record_step-holds, transition-holds, restore-holds,
            validate-holds,
          )
          depth 8

    -- What the recovery keeps, the whole run keeps.
    module _ (id : String) (recovered : (t : Time) → Keeps P (recover env id t))
        (removed : (w : World) → P w → P (remove_file w)) where
      pub when-holds : (b : Bool) → Keeps P (run_when b env id)
      unfolding run_when run_configured run_prepared run_unconfigured
      when-holds true =
          search
            (keeps_rules, recovered, removed, transition-holds, load_plan-holds, stage_file-holds)
            depth 8
      when-holds false = search (keeps_rules, transition-holds, set_terminal-holds) depth 8
