-- ===== src/Domain/Recovery.antt =====
-- backend/internal/domain/recovery.go and the value types of backend/internal/domain/model.go: the
-- measurements, the policy results and the assessment.
-- A time is its number of nanoseconds since Go's zero time. `Duration.Seconds` goes through a
-- float64, so its truncation to int64 is the parameter `SecondsConversion`.
use restoreguard.Common.{
  ℕ, suc, ◌+◌, ◌-◌, ◌*◌, ◌^◌, ◌≤◌, min, ◌≡◌, Bool, true, false, ◌&&◌, ◌||◌, not, List, [], ◌∷◌, ltb,
  ◌==◌, if◌then◌else◌,
}
use restoreguard.Common.Int.{ℤ, pos, ltb_ℤ, leb_ℤ}

abbrev pub Time : Type 0
Time = ℕ

abbrev pub nanos : ℕ
nanos = 1000000000

-- The largest Duration, at which `Sub` saturates.
abbrev pub max_duration : ℕ
max_duration = 2 ^ 63 - 1

-- `int64(d.Seconds())` for a duration d ≥ 0: a nearest float64 is at most one whole second above
-- the exact value cut off, and whole seconds are exact.
pub record SecondsConversion : Type 0 where
  pub seconds : ℕ → ℕ
  pub not_early : (d : ℕ) → d ≤ max_duration → seconds d * nanos ≤ d + nanos
  pub not_late : (d : ℕ) → d ≤ max_duration → suc d ≤ suc (seconds d) * nanos
  pub exact : (n : ℕ) → n * nanos ≤ max_duration → seconds (n * nanos) ≡ n
  pub monotone : (c d : ℕ) → c ≤ d → d ≤ max_duration → seconds c ≤ seconds d

-- The empty string stands for "not evaluated".
pub data PolicyResult : Type 0 where
  unset pass fail inconclusive : PolicyResult

PolicyResult-discrete : Discrete PolicyResult
PolicyResult-discrete = hlevel

pub data Assessment : Type 0 where
  verified partially_verified assessment_failed assessment_unknown : Assessment

pub data Confidence : Type 0 where
  high medium low : Confidence

pub data ValidationStatus : Type 0 where
  passed failed warning undecided : ValidationStatus

pub record ValidationOutcome : Type 0 where
  pub status : ValidationStatus
  pub required : Bool

abbrev is_zero : Time → Bool
is_zero t = t == 0

-- `t.Sub(u)` for u ≤ t.
abbrev pub sub : Time → Time → ℕ
sub t u = min (t - u) max_duration

abbrev is_inconclusive : PolicyResult → Bool
is_inconclusive inconclusive = true
is_inconclusive _ = false

module _ (conv : SecondsConversion) where
  unfoldable pub measure_rpo : Time → Time → ℤ × PolicyResult
  measure_rpo drill_time snapshot_time =
      if is_zero snapshot_time || ltb drill_time snapshot_time
      then (pos 0, inconclusive)
      else (pos (conv.seconds (sub drill_time snapshot_time)), unset)

  unfoldable pub measure_rto : Time → Time → ℤ × PolicyResult
  measure_rto started_at ready_at =
      if is_zero started_at || is_zero ready_at || ltb ready_at started_at
      then (pos 0, inconclusive)
      else (pos (conv.seconds (sub ready_at started_at)), unset)

unfoldable pub evaluate_policy : ℤ → PolicyResult → ℤ → PolicyResult
evaluate_policy measured measurement target =
    if is_inconclusive measurement || ltb_ℤ measured (pos 0) || leb_ℤ target (pos 0)
    then inconclusive
    else if leb_ℤ measured target
    then pass
    else fail

abbrev pub is_failed : ValidationStatus → Bool
is_failed failed = true
is_failed _ = false

abbrev pub is_limited : ValidationStatus → Bool
is_limited warning = true
is_limited undecided = true
is_limited _ = false

-- The loop of `Assess`, with its variables `requiredFailed` and `limited`.
unfoldable pub scan : Bool → Bool → List ValidationOutcome → Bool × Bool
scan required_failed limited [] = (required_failed, limited)
scan required_failed limited (r ∷ rs) =
    scan (required_failed || (r.required && is_failed r.status))
      (limited || is_limited r.status || (not r.required && is_failed r.status)) rs

conclude : Bool → Bool × Bool → Assessment × Confidence
conclude evidence_integrity (required_failed, limited) =
    if required_failed
    then (assessment_failed, low)
    else if limited || not evidence_integrity
    then (partially_verified, medium)
    else (verified, high)

unfoldable pub assess : Bool → List ValidationOutcome → Bool → Assessment × Confidence
unfolding conclude
assess false results evidence_integrity = (assessment_failed, low)
assess true [] evidence_integrity = (assessment_unknown, low)
assess true (r ∷ rs) evidence_integrity = conclude evidence_integrity (scan false false (r ∷ rs))
