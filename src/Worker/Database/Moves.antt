-- ===== src/Worker/Database/Moves.antt =====
-- How each database operation of a run changes the status of the drill.
use restoreguard.Common.{
  ◌≡◌, refl, ◌≢◌, ◌⊎◌, inl, [], ◌∷◌, ◌++◌, Bool, true, false, Option, none, some, arith, String, ℕ,
  if_either,
}
use restoreguard.Domain.Status.{
  DrillStatus, queued, preparing, restoring, validating, finalizing, succeeded, failed, cancelled,
  inconclusive, no_error,
}
use restoreguard.Domain.Status
use restoreguard.Domain.Recovery.{Time}
use restoreguard.Worker.World.{
  Drill, World, Env, Point, at_transition, begin, select, terminal, failing, record_step, db_error,
}
use restoreguard.Worker.Flow.{Flow}
use restoreguard.Worker.Flow.Keeps.{Keeps, CallKeeps}
use restoreguard.Worker.Database.{
  cancel_drill, interfere, interfere_at, locked_transition, transition, record_step_row, end_drill,
  set_terminal, fail,
}

-- A start time that is set stays as it is.
abbrev pub IsKept : Option Time → Option Time → Type 0
IsKept none after = Unit
IsKept (some t) after = after ≡ some t

-- The row is unchanged, or it is given one new status, `Transition` accepts the change, and the
-- start time stays.
abbrev pub Moves : Drill → Drill → Type 0
Moves d e =
    (e ≡ d)
    ⊎ ((Status.transition d.status e.status ≡ no_error)
        × IsKept d.started_at e.started_at
        × (e.given ≡ d.given ++ e.status ∷ []))

abbrev is_success : DrillStatus → Bool
is_success succeeded = true
is_success _ = false

-- Such a change that is not the final success.
abbrev MovesOn : Drill → Drill → Type 0
MovesOn d e = Moves d e × ((e ≡ d) ⊎ (is_success e.status ≡ false))

cancel-MovesOn : (now : Time) (d : Drill) → MovesOn d (cancel_drill now d)
unfolding cancel_drill Status.transition
cancel-MovesOn now d = ground arith

interfere_at-MovesOn : (o : Option Time) (w : World) → MovesOn w.drill (interfere_at o w).drill
unfolding interfere_at
interfere_at-MovesOn none w = (inl refl, inl refl)
interfere_at-MovesOn (some now) w = cancel-MovesOn now w.drill

interfere-MovesOn : (env : Env) (p : Point) (w : World) → MovesOn w.drill (interfere env p w).drill
unfolding interfere
interfere-MovesOn env p w = interfere_at-MovesOn (env.cancels p) w

locked-MovesOn :
    (env : Env) (to : DrillStatus) (step : String) (n : ℕ) (w : World)
    → is_success to ≡ false
    → MovesOn w.drill (locked_transition env to step n w).1.drill
unfolding locked_transition
locked-MovesOn env to step n w u = ground arith

-- A status that ends a drill without success.
abbrev is_unsuccessful : DrillStatus → Bool
is_unsuccessful failed = true
is_unsuccessful cancelled = true
is_unsuccessful inconclusive = true
is_unsuccessful _ = false

end-MovesOn :
    (env : Env) (to : DrillStatus) (summary : String) (w : World)
    → is_unsuccessful to ≡ true
    → w.drill.status ≢ queued
    → MovesOn w.drill (end_drill env to summary w).drill
unfolding end_drill Status.transition
end-MovesOn env to summary w h q = ground arith

-- A predicate on rows that every accepted change but the final success keeps.
pub record IsClosed (P : Drill → Type 0) : Type 0 where
  pub next : (d e : Drill) → MovesOn d e → P d → P e

abbrev pub Holds : (Drill → Type 0) → World → Type 0
Holds P w = P w.drill

module _ {P : Drill → Type 0} (closed : IsClosed P) (env : Env) where
  pub interfere-Keeps : (p : Point) (w : World) → Holds P w → Holds P (interfere env p w)
  interfere-Keeps p w h = closed.next _ _ (interfere-MovesOn env p w) h

  pub transition-Keeps :
      (to : DrillStatus) (step : String) (n : ℕ)
      → is_success to ≡ false
      → CallKeeps (Holds P) (transition env to step n)
  unfolding transition
  transition-Keeps to step n u = record {
    at = λ w h.
        let w' = interfere env (at_transition to select) w in
        let h' = interfere-Keeps (at_transition to select) w h in
        if_either (λ (r : Bool × World). Holds P r.1) (db_error env (at_transition to begin)) h
          (closed.next _ _ (locked-MovesOn env to step n w' u) h');
  }

  pub record_step-Keeps :
      (step : String) (n : ℕ) (summary : String)
      → CallKeeps (Holds P) (record_step_row env step n summary)
  unfolding record_step_row
  record_step-Keeps step n summary = record {
    at = λ w h. if_either (λ (r : Bool × World). Holds P r.1) (db_error env record_step) h h;
  }

  -- The drill has left the queue wherever `P` holds.
  module _ (started : (d : Drill) → P d → d.status ≢ queued) where
    pub set_terminal-Keeps :
        (error : Bool) (to : DrillStatus) (summary : String)
        → is_unsuccessful to ≡ true
        → CallKeeps (Holds P) (set_terminal env error to summary)
    unfolding set_terminal
    set_terminal-Keeps error to summary u = record {
      at = λ w h.
          let w' = interfere env terminal w in
          let h' = interfere-Keeps terminal w h in
          if_either (λ (r : Bool × World). Holds P r.1) error h'
            (closed.next _ _ (end-MovesOn env to summary w' u (started _ h')) h');
    }

    pub fail-Keeps : {A : Type 0} (summary : String) → Keeps (Holds P) (fail {A = A} env summary)
    unfolding fail
    fail-Keeps {A} summary = record {
      at = λ w h.
          if_either (λ (r : Flow A × World). Holds P r.1) (env.done failing)
            ((set_terminal-Keeps (env.fails terminal) cancelled
                "Drill was cancelled; partial evidence may be retained" refl).at
              w h)
            ((set_terminal-Keeps (env.fails terminal) failed summary refl).at w h);
    }

-- A transition that reports no error has given the drill its new status.
pub transition-status :
    (env : Env) (to : DrillStatus) (step : String) (n : ℕ) (w : World)
    → (transition env to step n w).0 ≡ false
    → (transition env to step n w).1.drill.status ≡ to
unfolding transition
transition-status env to step n w h = ground arith

pub not_queued : (d e : Drill) → Moves d e → d.status ≢ queued → e.status ≢ queued
unfolding Status.transition
not_queued d e m q = ground arith
