-- ===== src/Worker/Flow.antt =====
-- Early `return` and `defer` of Go: an action changes the world and either goes on or stops.
pub mod Keeps
pub mod Inversion
pub mod Ends
use restoreguard.Common.{Bool, true, false}
use restoreguard.Worker.World.{World}

pub data Flow {ℓ} (A : Type ℓ) : Type ℓ where
  stop : Flow A
  go : A → Flow A

abbrev pub Action : Type 0 → Type 0
Action A = World → Flow A × World

abbrev pub continue : {A B : Type 0} → Flow A → (A → Action B) → Action B
continue stop f w = (stop, w)
continue (go a) f w = f a w

infixl 5 ◌>>=◌ ◌>>◌
abbrev pub ◌>>=◌ : {A B : Type 0} → Action A → (A → Action B) → Action B
◌>>=◌ m f w = let (r, w') = m w in continue r f w'

abbrev pub ◌>>◌ : {A B : Type 0} → Action A → Action B → Action B
m >> k = m >>= λ _. k

abbrev pub pure : {A : Type 0} → A → Action A
pure a w = (go a, w)

abbrev pub halt : {A : Type 0} → Action A
halt w = (stop, w)

abbrev pub modify : (World → World) → Action (Unit {0})
modify f w = (go tt, f w)

-- `if err != nil { return }`
abbrev pub proceed : Bool → Action (Unit {0})
proceed true w = (stop, w)
proceed false w = (go tt, w)

abbrev pub unless_error : (World → Bool × World) → Action (Unit {0})
unless_error call w = let (failed, w') = call w in proceed failed w'

-- `_ = call`
abbrev pub ignore : (World → Bool × World) → Action (Unit {0})
ignore call w = (go tt, (call w).1)

-- `defer`: the cleanup runs whether the body went on or stopped.
abbrev pub finally : {A : Type 0} → Action A → (World → World) → Action A
finally m cleanup w = let (r, w') = m w in (r, cleanup w')
