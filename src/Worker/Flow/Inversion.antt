-- ===== src/Worker/Flow/Inversion.antt =====
-- What an action that went on has done on the way.
use restoreguard.Common.{◌≡◌, refl, Bool, true, false}
use restoreguard.Worker.World.{World}
use restoreguard.Worker.Flow.{Flow, stop, go, Action, continue, ◌>>=◌}

abbrev pub went_on : {A : Type 0} → Flow A → Bool
went_on stop = false
went_on (go _) = true

pub bind-eq-go :
    {A B : Type 0} (m : Action A) (f : A → Action B) (w : World) {b : B} {v : World}
    → (m >>= f) w ≡ (go b, v)
    → (a : A) × (u : World) × (m w ≡ (go a, u)) × (f a u ≡ (go b, v))
bind-eq-go {A} {B} m f w {b} {v} h = split (m w).0 (m w).1 refl h
  where
    split :
        (r : Flow A) (u : World)
        → m w ≡ (r, u)
        → continue r f u ≡ (go b, v)
        → (a : A) × (x : World) × (m w ≡ (go a, x)) × (f a x ≡ (go b, v))
    split stop u e k = cc
    split (go a) u e k = (a, u, e, k)

-- Wherever the action goes on, its result and the world satisfy `Q`.
pub record Goes {A : Type 0} (Q : A → World → Type 0) (m : Action A) : Type 0 where
  pub at : (w : World) (a : A) (v : World) → m w ≡ (go a, v) → Q a v

module _ {A B : Type 0} {Q : B → World → Type 0} (m : Action A) (f : A → Action B) where
  pub Goes-after : ((a : A) → Goes Q (f a)) → Goes Q (m >>= f)
  Goes-after kf = record {
    at = λ w b v h. let (a, u, _, k) = bind-eq-go m f w h in (kf a).at u b v k;
  }

  pub Goes-bind :
      {R : A → World → Type 0}
      → Goes R m
      → ((a : A) (u : World) → R a u → Goes Q (f a))
      → Goes Q (m >>= f)
  Goes-bind km kf = record {
    at = λ w b v h. let (a, u, e, k) = bind-eq-go m f w h in (kf a u (km.at w a u e)).at u b v k;
  }

module _ {A B : Type 0} (m : Action A) (f : A → Action B) (w : World) where
  -- A statement about the outcome of two actions, by the outcome of the first.
  pub bind_at :
      (Q : Flow B × World → Type 0)
      → ((m w).0 ≡ stop → Q (stop, (m w).1))
      → ((a : A) (u : World) → m w ≡ (go a, u) → Q (f a u))
      → Q ((m >>= f) w)
  bind_at Q stopped went = split (m w).0 (m w).1 refl stopped
    where
      split :
          (r : Flow A) (u : World) → m w ≡ (r, u) → (r ≡ stop → Q (stop, u)) → Q (continue r f u)
      split stop u e q = q refl
      split (go a) u e q = went a u e

  -- The same about the world alone.
  pub bind-cases :
      (Q : World → Type 0)
      → ((m w).0 ≡ stop → Q (m w).1)
      → ((a : A) (u : World) → m w ≡ (go a, u) → Q (f a u).1)
      → Q ((m >>= f) w).1
  bind-cases Q stopped went = bind_at (λ p. Q p.1) stopped went
