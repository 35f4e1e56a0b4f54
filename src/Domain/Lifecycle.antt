-- ===== src/Domain/Lifecycle.antt =====
-- The lifecycle of a drill: the histories that the table of backend/internal/domain/recovery.go allows.
use restoreguard.Common.{
  ℕ, suc, ◌+◌, ◌≤◌, ◌≡◌, refl, ap, subst, Bool, true, false, List, [], ◌∷◌, arith, length,
}
use restoreguard.Domain.Status.{
  DrillStatus, queued, preparing, restoring, validating, finalizing, succeeded, failed, cancelled,
  inconclusive, no_error, invalid_transition, transition,
}

-- A list of statuses is a legal history from `s` to `t` when `Transition` accepts each change.
abbrev pub IsHistory : DrillStatus → List DrillStatus → DrillStatus → Type 0
IsHistory s [] t = s ≡ t
IsHistory s (u ∷ us) t = (transition s u ≡ no_error) × IsHistory u us t

-- How far a status lies from the queue.
abbrev rank : DrillStatus → ℕ
rank queued = 0
rank preparing = 1
rank restoring = 2
rank validating = 3
rank finalizing = 4
rank _ = 5

rank-transition : (s t : DrillStatus) → transition s t ≡ no_error → suc (rank s) ≤ rank t
unfolding transition
rank-transition s t h = ground arith

rank-history :
    (s t : DrillStatus) (us : List DrillStatus) → IsHistory s us t → rank s + length us ≤ rank t
rank-history s t [] h = ground arith
rank-history s t (u ∷ us) (h, hs) = omega (arith, rank-transition s u h, rank-history u t us hs)

rank_le : (t : DrillStatus) → rank t ≤ 5
rank_le t = ground arith

-- No history of changes that `Transition` accepts, from any status, is longer than five changes, so no
-- drill can cycle through its statuses.
pub history_bounded : (s t : DrillStatus) (us : List DrillStatus) → IsHistory s us t → length us ≤ 5
history_bounded s t us h = omega (arith, rank-history s t us h, rank_le t)

abbrev pub is_terminal : DrillStatus → Bool
is_terminal succeeded = true
is_terminal failed = true
is_terminal cancelled = true
is_terminal inconclusive = true
is_terminal _ = false

pub terminal_refuses :
    (s t : DrillStatus) → is_terminal s ≡ true → transition s t ≡ invalid_transition
unfolding transition
terminal_refuses s t h = ground arith

-- A history that begins in a terminal status is empty.
terminal_history :
    (s t : DrillStatus) (us : List DrillStatus) → is_terminal s ≡ true → IsHistory s us t → us ≡ []
terminal_history s t [] e h = refl
terminal_history s t (u ∷ us) e (h, hs) = cc (terminal_refuses s u e)

abbrev after : DrillStatus → DrillStatus
after queued = preparing
after preparing = restoring
after restoring = validating
after validating = finalizing
after _ = succeeded

step_towards :
    (s u : DrillStatus) (us : List DrillStatus)
    → transition s u ≡ no_error
    → IsHistory u us succeeded
    → u ≡ after s
unfolding transition
step_towards s u [] h hs = ground arith
step_towards s u (v ∷ vs) h (k, ks) = ground arith

last_step : (us : List DrillStatus) → IsHistory finalizing us succeeded → us ≡ succeeded ∷ []
last_step [] h = cc
last_step (u ∷ us) (h, hs) = ground (
  arith,
  step_towards finalizing u us h hs,
  λ (e : u ≡ succeeded). terminal_history u succeeded us (ap is_terminal e) hs,
)

-- One step of a history that ends in success, as a rewriting of its head.
head_step :
    (s : DrillStatus) (us ws : List DrillStatus)
    → is_terminal s ≡ false
    → ((vs : List DrillStatus) → IsHistory (after s) vs succeeded → vs ≡ ws)
    → IsHistory s us succeeded
    → us ≡ after s ∷ ws
head_step s [] ws live rest h = ground arith
head_step s (u ∷ us) ws live rest (h, hs) =
    let e = step_towards s u us h hs in cc (e, rest us (subst (λ v. IsHistory v us succeeded) e hs))

-- A drill that succeeds has passed through every stage, in order, and through nothing else.
pub success_history :
    (us : List DrillStatus)
    → IsHistory queued us succeeded
    → us ≡ preparing ∷ restoring ∷ validating ∷ finalizing ∷ succeeded ∷ []
success_history us = head_step queued us _ refl λ us₁.
    head_step preparing us₁ _ refl
      λ us₂. head_step restoring us₂ _ refl λ us₃. head_step validating us₃ _ refl last_step
