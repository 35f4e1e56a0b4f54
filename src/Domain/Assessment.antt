-- ===== src/Domain/Assessment.antt =====
-- What Assess concludes from the validations.
use restoreguard.Common.{
  ◌≡◌, ◌≢◌, ◌↔◌, ◌⊎◌, Bool, true, false, ◌&&◌, ◌||◌, not, List, [], ◌∷◌, arith, All, Any,
}
use restoreguard.Domain.Recovery.{
  verified, assessment_failed, passed, failed, ValidationOutcome, is_failed, is_limited, scan,
  assess,
}

abbrev Blocks : ValidationOutcome → Type 0
Blocks r = (r.required ≡ true) × (r.status ≡ failed)

abbrev pub Passes : ValidationOutcome → Type 0
Passes r = r.status ≡ passed

-- The first flag of the loop: it was set before, or a required validation failed.
scan-Blocks :
    (f l : Bool) (rs : List ValidationOutcome)
    → ((scan f l rs).0 ≡ true) ↔ ((f ≡ true) ⊎ Any Blocks rs)
unfolding scan
scan-Blocks f l [] = ground arith
scan-Blocks f l (r ∷ rs) = ground (
  arith,
  scan-Blocks (f || (r.required && is_failed r.status))
      (l || is_limited r.status || (not r.required && is_failed r.status)) rs,
)

-- Neither flag is set exactly when both were clear before and every validation passed.
scan_clear :
    (f l : Bool) (rs : List ValidationOutcome)
    → (scan f l rs ≡ (false, false)) ↔ ((f ≡ false) × (l ≡ false) × All Passes rs)
unfolding scan
scan_clear f l [] = ground arith
scan_clear f l (r ∷ rs) = ground (
  arith,
  scan_clear (f || (r.required && is_failed r.status))
      (l || is_limited r.status || (not r.required && is_failed r.status)) rs,
)

-- A drill is assessed as verified exactly when the restore passed, there is at least one validation,
-- every validation passed, and the evidence is intact.
pub verified_iff :
    (restored : Bool) (rs : List ValidationOutcome) (intact : Bool)
    → ((assess restored rs intact).0 ≡ verified)
      ↔ ((restored ≡ true) × (rs ≢ []) × All Passes rs × (intact ≡ true))
unfolding assess
verified_iff false rs intact = ground arith
verified_iff true [] intact = ground arith
verified_iff true (r ∷ rs) intact = ground (arith, scan_clear false false (r ∷ rs))

-- A drill is assessed as failed exactly when the restore failed or a required validation failed.
failed_iff :
    (restored : Bool) (rs : List ValidationOutcome) (intact : Bool)
    → ((assess restored rs intact).0 ≡ assessment_failed) ↔ ((restored ≡ false) ⊎ Any Blocks rs)
unfolding assess
failed_iff false rs intact = ground arith
failed_iff true [] intact = ground arith
failed_iff true (r ∷ rs) intact = ground (arith, scan-Blocks false false (r ∷ rs))
