-- ===== src/Worker/Flow/Keeps.antt =====
-- Invariants of actions, with a rule for each way to build an action.
use restoreguard.Common.{◌≡◌, refl, Bool, true, false}
use restoreguard.Worker.World.{World}
use restoreguard.Worker.Flow.{
  Flow, stop, go, Action, continue, ◌>>=◌, proceed, unless_error, ignore, finally, halt,
}

-- The action keeps `P`, whether it goes on or stops.
pub record Keeps {A : Type 0} (P : World → Type 0) (m : Action A) : Type 0 where
  pub at : (w : World) → P w → P (m w).1

-- A call that reports an error keeps `P`.
pub record CallKeeps (P : World → Type 0) (call : World → Bool × World) : Type 0 where
  pub at : (w : World) → P w → P (call w).1

module _ {P : World → Type 0} where
  pub Keeps-halt : {A : Type 0} → Keeps P (halt {A = A})
  Keeps-halt = record { at = λ w h. h }

  pub Keeps-continue :
      {A B : Type 0} (r : Flow A) (f : A → Action B)
      → ((a : A) → Keeps P (f a))
      → Keeps P (continue r f)
  Keeps-continue stop f kf = record { at = λ w h. h }
  Keeps-continue (go a) f kf = kf a

  pub Keeps-bind :
      {A B : Type 0} (m : Action A) (f : A → Action B)
      → Keeps P m
      → ((a : A) → Keeps P (f a))
      → Keeps P (m >>= f)
  Keeps-bind m f km kf = record {
    at = λ w h. let (r, w') = m w in (Keeps-continue r f kf).at w' (km.at w h);
  }

  Keeps-proceed : (b : Bool) → Keeps P (proceed b)
  Keeps-proceed true = record { at = λ w h. h }
  Keeps-proceed false = record { at = λ w h. h }

  pub Keeps-unless_error :
      (call : World → Bool × World) → CallKeeps P call → Keeps P (unless_error call)
  Keeps-unless_error call k = record {
    at = λ w h. let (b, w') = call w in (Keeps-proceed b).at w' (k.at w h);
  }

  pub Keeps-ignore : (call : World → Bool × World) → CallKeeps P call → Keeps P (ignore call)
  Keeps-ignore call k = record { at = λ w h. k.at w h }

  pub Keeps-finally :
      {A : Type 0} (m : Action A) (cleanup : World → World)
      → Keeps P m
      → ((w : World) → P w → P (cleanup w))
      → Keeps P (finally m cleanup)
  Keeps-finally m cleanup km kc = record { at = λ w h. kc (m w).1 (km.at w h) }

-- What follows a call is reached only if the call reports no error.
pub bind_unless_cases :
    {B : Type 0} (Q : World → Type 0) (call : World → Bool × World) (f : Unit {0} → Action B)
    (w : World)
    → ((call w).0 ≡ true → Q (call w).1)
    → ((call w).0 ≡ false → Q (f tt (call w).1).1)
    → Q ((unless_error call >>= f) w).1
bind_unless_cases {B} Q call f w bad good = split (call w).0 bad good
  where
    split :
        (b : Bool)
        → (b ≡ true → Q (call w).1)
        → (b ≡ false → Q (f tt (call w).1).1)
        → Q ((proceed b >>= f) (call w).1).1
    split true h k = h refl
    split false h k = k refl

pub ruleset keeps_rules = (Keeps-halt, Keeps-bind, Keeps-unless_error, Keeps-ignore, Keeps-finally)
