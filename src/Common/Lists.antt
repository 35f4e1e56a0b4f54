-- ===== src/Common/Lists.antt =====
-- Lists measured by native numbers, under the library's names, and two predicates on lists.
use Prim.Native.Nat.{ℕ, zero, suc, ◌+◌, min}
use mathlib.Core.Path.{◌≡◌, subst}
use mathlib.Core.Logic.{◌⊎◌}
use mathlib.Core.Bool.{Bool, true, false, ◌&&◌, ◌||◌}
use mathlib.Core.Option.{Option, none, some}
use restoreguard.Common.Tests.{if◌then◌else◌, if_cases}
use mathlib.Core.List.{List, [], ◌∷◌, ◌++◌}
use native.Mathlib.Omega.{arith}

abbrev pub first_or {ℓ} : {A : Type ℓ} → Option A → Option A → Option A
first_or none other = other
first_or (some a) other = some a

module _ {ℓ} {A : Type ℓ} where
  abbrev pub length : List A → ℕ
  length [] = 0
  length (x ∷ xs) = suc (length xs)

  abbrev pub take : ℕ → List A → List A
  take zero xs = []
  take (suc n) [] = []
  take (suc n) (x ∷ xs) = x ∷ take n xs

  abbrev pub drop : ℕ → List A → List A
  drop zero xs = xs
  drop (suc n) [] = []
  drop (suc n) (x ∷ xs) = drop n xs

  abbrev pub any : (A → Bool) → List A → Bool
  any p [] = false
  any p (x ∷ xs) = p x || any p xs

  abbrev pub all : (A → Bool) → List A → Bool
  all p [] = true
  all p (x ∷ xs) = p x && all p xs

  pub length-append : (xs ys : List A) → length (xs ++ ys) ≡ length xs + length ys
  length-append [] ys = omega arith
  length-append (x ∷ xs) ys = omega (arith, length-append xs ys)

  pub length-take : (n : ℕ) (xs : List A) → length (take n xs) ≡ min n (length xs)
  length-take zero xs = omega arith
  length-take (suc n) [] = omega arith
  length-take (suc n) (x ∷ xs) = omega (arith, length-take n xs)

  -- `All` and `Any` compute to tuples and sums, which the tactics read and build.
  abbrev pub All {κ} : (A → Type κ) → List A → Type κ
  All P [] = Unit
  All P (x ∷ xs) = P x × All P xs

  abbrev pub Any : (A → Type 0) → List A → Type 0
  Any P [] = ⊥
  Any P (x ∷ xs) = P x ⊎ Any P xs

  -- The first element that passes a test.
  abbrev pub find : (A → Bool) → List A → Option A
  find p [] = none
  find p (x ∷ xs) = let rest = find p xs in if p x then some x else rest

  -- What the first element gives for which a lookup gives something.
  abbrev pub first {κ} : {B : Type κ} → (A → Option B) → List A → Option B
  first f [] = none
  first f (x ∷ xs) = first_or (f x) (first f xs)

  abbrev pub filter : (A → Bool) → List A → List A
  filter p [] = []
  filter p (x ∷ xs) = let rest = filter p xs in if p x then x ∷ rest else rest

  pub All-append {κ} : (P : A → Type κ) (xs ys : List A) → All P xs → All P ys → All P (xs ++ ys)
  All-append P [] ys h k = k
  All-append P (x ∷ xs) ys (h, hs) k = (h, All-append P xs ys hs k)

  -- What is found has the property, and passes the test.
  pub find-All {κ} :
      (P : A → Type κ) (p : A → Bool) (xs : List A) {y : A}
      → find p xs ≡ some y
      → All P xs
      → P y × (p y ≡ true)
  find-All P p [] e h = cc e
  find-All P p (x ∷ xs) {y} e (h, hs) =
      if_cases (λ o. o ≡ some y → P y × (p y ≡ true)) (p x)
        (λ yes k. subst (λ z. P z × (p z ≡ true)) (some-injective k) (h, yes))
        (λ _ k. find-All P p xs k hs) e
    where
      some-injective : {x y : A} → some x ≡ some y → x ≡ y
      some-injective e = cc e

  pub All-weaken {κ} :
      (P Q : A → Type κ) → ((x : A) → P x → Q x) → (xs : List A) → All P xs → All Q xs
  All-weaken P Q f [] h = tt
  All-weaken P Q f (x ∷ xs) (h, hs) = (f x h, All-weaken P Q f xs hs)

  pub find-test : (p : A → Bool) (xs : List A) {y : A} → find p xs ≡ some y → p y ≡ true
  find-test p [] h = cc h
  find-test p (x ∷ xs) {y} h =
      if_cases (λ o. o ≡ some y → p y ≡ true) (p x)
        (λ yes k. subst (λ z. p z ≡ true) (some-injective k) yes) (λ _ k. find-test p xs k) h
    where
      some-injective : {x y : A} → some x ≡ some y → x ≡ y
      some-injective e = cc e
