-- ===== src/Worker/Run/Gather.antt =====
-- What has happened when a run reaches its last transaction.
use restoreguard.Common.{
  ◌≡◌, refl, ap, Bool, true, false, ◌||◌, none, some, arith, String, length, if◌then◌else◌,
}
use restoreguard.Domain.Recovery.{Time}
use restoreguard.Domain.Status.{restoring, validating, finalizing}
use restoreguard.Worker.World.{
  Bytes, ObjectInfo, World, Env, get_object, copy, close_temp, copy_backup, restore_backup,
  connectivity, recovery_ready, put_evidence, destroy_sandbox,
}
use restoreguard.Worker.Flow.{Flow, stop, go, unless_error}
use restoreguard.Worker.Flow.Inversion.{went_on, bind-eq-go, Goes, Goes-after, Goes-bind}
use restoreguard.Worker.Database.{transition, record_step_row, fail}
use restoreguard.Worker.Backup.{artifact_limit, is_rejected}
use restoreguard.Worker.Run.{
  Verdict, decide, evidence_key, payload, stored_info, backup_bytes, backup_hash, fetch_backup,
  persist_sandbox, restore, validate, store_evidence, delete_evidence, close_sandbox, mark_row,
  exercise_sandbox, keep_evidence, gather,
}

module _ {A : Type 0} where
  fail-stops : (env : Env) (summary : String) (w : World) → (fail {A = A} env summary w).0 ≡ stop
  unfolding fail
  fail-stops env summary w = ground arith

  -- A stage that went on did not meet its test.
  stage-eq-go :
      (env : Env) (test : Bool) (summary : String) (w u : World) {a b : A} {v : World}
      → (if test then fail env summary w else (go a, u)) ≡ (go b, v)
      → (test ≡ false) × (a ≡ b) × (u ≡ v)
  stage-eq-go env true summary w u h =
      cc (ap (λ (p : Flow A × World). went_on p.0) h, fail-stops env summary w)
  stage-eq-go env false summary w u h = (refl, cc, cc)

-- The artifact was opened and copied, and its size and checksum were right.
pub record IsIntact (env : Env) : Type 0 where
  pub opened : env.fails get_object ≡ false
  pub accepted :
      (env.fails copy
        || env.fails close_temp
        || is_rejected
            (artifact_limit env.max_artifact_bytes)
            (length (backup_bytes env))
            env.artifact_size
            env.plan.checksum
            (backup_hash env))
      ≡ false

pub fetch-eq-go :
    (env : Env) (w : World) {hash : Bytes} {v : World}
    → fetch_backup env w ≡ (go hash, v)
    → IsIntact env × (backup_hash env ≡ hash)
unfolding fetch_backup
fetch-eq-go env w {hash} {v} h = split (env.fails get_object) refl h
  where
    split :
        (b : Bool)
        → env.fails get_object ≡ b
        → (if b
            then fail env "Backup artifact could not be opened" w
            else if env.fails copy
                || env.fails close_temp
                || is_rejected
                    (artifact_limit env.max_artifact_bytes)
                    (length (backup_bytes env))
                    env.artifact_size
                    env.plan.checksum
                    (backup_hash env)
            then fail env "Backup artifact integrity validation failed" w
            else (go (backup_hash env), w))
          ≡ (go hash, v)
        → IsIntact env × (backup_hash env ≡ hash)
    split true e k = cc (
      ap (λ (p : Flow Bytes × World). went_on p.0) k,
      fail-stops {A = Bytes} env "Backup artifact could not be opened" w,
    )
    split false e k =
        let (accepted, same, _) = stage-eq-go env _ _ w w k in
        (record { opened = e; accepted = accepted }, same)

-- The sandbox was exercised: the backup was copied and restored, and the database answered.
pub record IsRecovered (env : Env) : Type 0 where
  pub restored : (env.fails copy_backup || env.fails restore_backup) ≡ false
  pub connected : env.fails connectivity ≡ false
  pub stored : env.fails put_evidence ≡ false
  pub destroyed : env.fails destroy_sandbox ≡ false

-- What the run decides, and the evidence that it keeps, from the start time of the drill.
abbrev pub verdict : Env → Time → Verdict
verdict env started = decide env started (env.clock recovery_ready)

abbrev pub evidence : Env → Time → Bytes → Bytes
evidence env started hash = payload env (env.clock recovery_ready) hash (verdict env started)

module _ (env : Env) (id : String) (started : Time) (hash : Bytes) where
  abbrev pub info : ObjectInfo
  info = stored_info env (evidence_key env.plan.organization_id id) (evidence env started hash)

  pub record IsGathered (v : Verdict) (i : ObjectInfo) (w : World) : Type 0 where
    pub recovered : IsRecovered env
    pub judged : verdict env started ≡ v
    pub described : info ≡ i
    pub kept : w.object ≡ some (evidence env started hash)
    pub gone : w.sandbox ≡ none

  restore-Goes :
      Goes (λ _ _. (env.fails copy_backup || env.fails restore_backup) ≡ false) (restore env)
  unfolding restore
  restore-Goes = record { at = λ w a v h. (stage-eq-go env _ _ w w h).0 }

  validate-Goes :
      Goes (λ t _. (env.fails connectivity ≡ false) × (env.clock recovery_ready ≡ t)) (validate env)
  unfolding validate
  validate-Goes = record {
    at = λ w a v h. let (ok, same, _) = stage-eq-go env _ _ w w h in (ok, same);
  }

  exercise_sandbox-Goes :
      Goes
        (λ t _.
          ((env.fails copy_backup || env.fails restore_backup) ≡ false)
          × (env.fails connectivity ≡ false)
          × (env.clock recovery_ready ≡ t))
        (exercise_sandbox env)
  unfolding exercise_sandbox
  exercise_sandbox-Goes = Goes-after (persist_sandbox env) _ λ _.
      Goes-after
        (unless_error
          (record_step_row env "CREATE_SANDBOX" 2 "Isolated Docker sandbox became ready"))
        _
        λ _. Goes-after (unless_error (transition env restoring "RESTORE_POSTGRES" 3)) _ λ _.
          Goes-bind (restore env) _ restore-Goes λ _ _ r.
            Goes-after (unless_error (transition env validating "POSTGRES_CONNECTIVITY" 4)) _ λ _.
              record { at = λ w t u h. let (ok, same) = validate-Goes.at w t u h in (r, ok, same) }

  close_sandbox-lem :
      (w u : World) (x : Unit {0})
      → close_sandbox env w ≡ (go x, u)
      → (env.fails destroy_sandbox ≡ false) × (u.object ≡ w.object) × (u.sandbox ≡ none)
  unfolding close_sandbox mark_row
  close_sandbox-lem w u x h =
      ground (arith, fail-stops {A = Unit {0}} env "Sandbox cleanup failed" (delete_evidence env w))

  -- The evidence is stored, and the sandbox is gone.
  keep_evidence-lem :
      (key : String) (bytes : Bytes) (v : Verdict) (w u : World) (r : Verdict × ObjectInfo)
      → keep_evidence env key bytes v w ≡ (go r, u)
      → (env.fails put_evidence ≡ false)
        × (env.fails destroy_sandbox ≡ false)
        × (r ≡ (v, stored_info env key bytes))
        × (u.object ≡ some bytes)
        × (u.sandbox ≡ none)
  unfolding keep_evidence store_evidence
  keep_evidence-lem key bytes v w u r h =
      let (i, w₁, e₁, h₁) = bind-eq-go (store_evidence env key bytes) _ w h in
      let (x, w₂, e₂, h₂) = bind-eq-go (close_sandbox env) _ w₁ h₁ in
      let (put, same, kept) = stage-eq-go env _ _ _ _ e₁ in
      let (closed, object, sandbox) = close_sandbox-lem w₁ w₂ x e₂ in
      (put, closed, cc, cc (ap (λ (y : World). y.object) kept), cc)

  pub gather-Goes : Goes (λ r u. IsGathered r.0 r.1 u) (gather env id started hash)
  unfolding gather
  gather-Goes =
      Goes-bind (exercise_sandbox env) _ exercise_sandbox-Goes λ t _ (restored, connected, now).
        Goes-after (unless_error (transition env finalizing "COLLECT_EVIDENCE" 5)) _ λ _. record {
          at = λ w r u h.
              let (put, closed, same, object, sandbox) = keep_evidence-lem _ _ _ w u r h in
              record {
                recovered = record {
                  restored = restored;
                  connected = connected;
                  stored = put;
                  destroyed = closed;
                };
                judged = cc (now, ap (λ (p : Verdict × ObjectInfo). p.0) same);
                described = cc (now, ap (λ (p : Verdict × ObjectInfo). p.1) same);
                kept = cc (now, object);
                gone = sandbox;
              };
        }
