-- ===== src/Worker/Run/Progress.antt =====
-- The statuses that a run gives its drill.
use mathlib.Core.List.{append_assoc, append-nil}
use restoreguard.Common.{
  ◌≡◌, refl, sym, ap, ◌∙◌, subst, ◌≢◌, inl, inr, List, [], ◌∷◌, ◌++◌, Bool, true, false, arith,
  String,
}
use restoreguard.Domain.Status.{DrillStatus, queued, preparing, succeeded, no_error}
use restoreguard.Domain.Status
use restoreguard.Domain.Lifecycle.{IsHistory, is_terminal, terminal_refuses}
use restoreguard.Worker.World.{Drill, World, Env}
use restoreguard.Worker.Flow.Keeps.{Keeps, keeps_rules, bind_unless_cases}
use restoreguard.Worker.Database.{transition}
use restoreguard.Worker.Database.Moves.{
  Moves, IsClosed, transition-Keeps, transition-status, not_queued, set_terminal-Keeps,
}
use restoreguard.Worker.Run.{run_prepared, run_configured, run_unconfigured, run_when, run}
use restoreguard.Worker.Run.Keeps.{prepared-Keeps}

-- The statuses that the row was given between the two are a legal history from the first status to
-- the second.
abbrev pub Reaches : Drill → Drill → Type 0
Reaches d e = (us : List DrillStatus) × (e.given ≡ d.given ++ us) × IsHistory d.status us e.status

IsHistory-snoc :
    (s t u : DrillStatus) (us : List DrillStatus)
    → IsHistory s us t
    → Status.transition t u ≡ no_error
    → IsHistory s (us ++ u ∷ []) u
IsHistory-snoc s t u [] h k = (subst (λ x. Status.transition x u ≡ no_error) (sym h) k, refl)
IsHistory-snoc s t u (v ∷ vs) (h, hs) k = (h, IsHistory-snoc v t u vs hs k)

module _ (s : Drill) where
  Reaches-Moves : (d e : Drill) → Moves d e → Reaches s d → Reaches s e
  Reaches-Moves d e m (us, g, h) = elim m [
    | inl same ↦ subst (λ (x : Drill). Reaches s x) (sym same) (us, g, h)
    | inr (legal, _, given) ↦ (
      us ++ e.status ∷ [],
      given ∙ ap (λ l. l ++ e.status ∷ []) g ∙ append_assoc s.given us (e.status ∷ []),
      IsHistory-snoc s.status d.status e.status us h legal,
    )
  ]

  Reaches-closed : IsClosed (Reaches s)
  Reaches-closed = record { next = λ d e m h. Reaches-Moves d e m.0 h }

  -- The drill was reached legally, and has left the queue.
  abbrev IsUnderway : Drill → Type 0
  IsUnderway d = Reaches s d × (d.status ≢ queued)

  IsUnderway-Moves : (d e : Drill) → Moves d e → IsUnderway d → IsUnderway e
  IsUnderway-Moves d e m (r, q) = (Reaches-Moves d e m r, not_queued d e m q)

  IsUnderway-closed : IsClosed IsUnderway
  IsUnderway-closed = record { next = λ d e m h. IsUnderway-Moves d e m.0 h }

module _ (env : Env) (id : String) where
  configured-legal : (w : World) → Reaches w.drill (run_configured env id w).1.drill
  unfolding run_configured
  configured-legal w =
      let call = transition env preparing "FETCH_BACKUP" 1 in
      let first : Reaches w.drill (call w).1.drill =
        (transition-Keeps (Reaches-closed w.drill) env preparing "FETCH_BACKUP" 1 refl).at w
          ([], sym (append-nil w.drill.given), refl) in
      bind_unless_cases (λ v. Reaches w.drill v.drill) call (λ _. run_prepared env id) w
        (λ _. first)
        (λ ok.
          ((prepared-Keeps (IsUnderway-closed w.drill) (λ d h. h.1) env
              (λ d e _ m h. IsUnderway-Moves w.drill d e m h) id).at
            (call w).1
            (first, λ q. ground (arith, transition-status env preparing "FETCH_BACKUP" 1 w ok))).0)

  when-legal : (b : Bool) (w : World) → b ≡ true → Reaches w.drill (run_when b env id w).1.drill
  unfolding run_when
  when-legal true w c = configured-legal w
  when-legal false w c = cc

  -- Whatever fails, whenever the run is cancelled, and whenever users cancel the drill: the statuses
  -- that a run of a configured worker, and the users during it, give to the row lead one after the
  -- other from the first status to the last, and `Transition` accepts each of these changes.
  pub run-legal : (w : World) → env.configured ≡ true → Reaches w.drill (run env id w).drill
  unfolding run
  run-legal w c = when-legal env.configured (record w { registered = true }) c

  module _ (d : Drill) (over : is_terminal d.status ≡ true) where
    same-Moves : (c e : Drill) → Moves c e → c ≡ d → e ≡ d
    same-Moves c e m h = elim m [
      | inl same ↦ same ∙ h
      | inr (legal, _, _) ↦ absurd (refused c e.status h legal)
    ]
      where
        refused : (c : Drill) (t : DrillStatus) → c ≡ d → Status.transition c.status t ≢ no_error
        refused c t h = λ k. cc (ap (λ (x : Drill). x.status) h, terminal_refuses d.status t over)

    same-closed : IsClosed (λ e. e ≡ d)
    same-closed = record { next = λ c e m h. same-Moves c e m.0 h }

    same-started : (c : Drill) → c ≡ d → c.status ≢ queued
    same-started c h = λ q. cc (ap (λ (x : Drill). x.status) h)

    when-same : (b : Bool) → Keeps (λ w. w.drill ≡ d) (run_when b env id)
    unfolding run_when run_configured run_unconfigured
    when-same true = search (
      keeps_rules,
      transition-Keeps same-closed env,
      prepared-Keeps same-closed same-started env (λ c e _ m h. same-Moves c e m h),
    )
    when-same false = search (
      keeps_rules,
      transition-Keeps same-closed env,
      set_terminal-Keeps same-closed env same-started,
    )

  -- A run of a drill that has ended leaves every column of its row as it was.
  pub run-terminal :
      (w : World) → is_terminal w.drill.status ≡ true → (run env id w).drill ≡ w.drill
  unfolding run
  run-terminal w over =
      (when-same w.drill over env.configured).at (record w { registered = true }) refl
