-- ===== src/Worker/Flow/Ends.antt =====
-- Actions that end a drill, or go on with a known status.
use restoreguard.Common.{◌≡◌, Bool, true, false}
use restoreguard.Domain.Status.{DrillStatus}
use restoreguard.Domain.Lifecycle.{is_terminal}
use restoreguard.Worker.World.{World}
use restoreguard.Worker.Flow.{
  Flow, stop, go, Action, continue, ◌>>=◌, unless_error, finally, proceed,
}

-- Where the action stops the drill is terminal; where it goes on the drill has the status `t`.
abbrev pub EndsAt : {A : Type 0} → DrillStatus → Flow A × World → Type 0
EndsAt t (stop, w) = is_terminal w.drill.status ≡ true
EndsAt t (go a, w) = w.drill.status ≡ t

pub record Ends {A : Type 0} (s t : DrillStatus) (m : Action A) : Type 0 where
  pub at : (w : World) → w.drill.status ≡ s → EndsAt t (m w)

-- A call that reports an error has found the drill terminal, or has made it so.
abbrev CallEndsAt : DrillStatus → Bool × World → Type 0
CallEndsAt t (true, w) = is_terminal w.drill.status ≡ true
CallEndsAt t (false, w) = w.drill.status ≡ t

pub record CallEnds (s t : DrillStatus) (call : World → Bool × World) : Type 0 where
  pub at : (w : World) → w.drill.status ≡ s → CallEndsAt t (call w)

module _ {s t u : DrillStatus} where
  pub Ends-bind :
      {A B : Type 0} (m : Action A) (f : A → Action B)
      → Ends s t m
      → ((a : A) → Ends t u (f a))
      → Ends s u (m >>= f)
  Ends-bind {A} {B} m f km kf = record { at = λ w h. split (m w).0 (m w).1 (km.at w h) }
    where
      split : (r : Flow A) (v : World) → EndsAt t (r, v) → EndsAt u (continue r f v)
      split stop v e = e
      split (go a) v e = (kf a).at v e

module _ {s t : DrillStatus} where
  pub Ends-unless_error :
      (call : World → Bool × World) → CallEnds s t call → Ends s t (unless_error call)
  Ends-unless_error call k = record { at = λ w h. split (call w).0 (call w).1 (k.at w h) }
    where
      split : (b : Bool) (v : World) → CallEndsAt t (b, v) → EndsAt t (proceed b v)
      split true v e = e
      split false v e = e

  pub Ends-finally :
      {A : Type 0} (m : Action A) (cleanup : World → World)
      → ((w : World) → (cleanup w).drill ≡ w.drill)
      → Ends s t m
      → Ends s t (finally m cleanup)
  Ends-finally {A} m cleanup same k = record { at = λ w h. split (m w).0 (m w).1 (k.at w h) }
    where
      split : (r : Flow A) (v : World) → EndsAt t (r, v) → EndsAt t (r, cleanup v)
      split stop v e = cc (same v)
      split (go a) v e = cc (same v)
