-- ===== src/Report/Text.antt =====
-- Texts as lists of code points, and the numbers that `%d` and `%010d` of Go's fmt write.
use restoreguard.Common.{
  ℕ, zero, suc, ◌+◌, ◌-◌, ◌*◌, ◌/◌, ◌%◌, ◌<◌, ◌≡◌, refl, ap, ◌∙◌, [], ◌∷◌, ◌++◌, String, ltb, ◌≤◌,
  All, length-append, length, if◌then◌else◌, if_cases, arith,
}
use restoreguard.Worker.World.{Bytes}
use Prim.Native.Char.{code}

abbrev pub codes : String → Bytes
codes String.[] = []
codes (String.◌∷◌ c s) = code c ∷ codes s

-- The digits of a number; one more than the number is enough fuel.
unfoldable digits_within : ℕ → ℕ → Bytes
digits_within zero n = []
digits_within (suc fuel) n =
    let rest = digits_within fuel (n / 10) in
    if ltb n 10 then (48 + n) ∷ [] else rest ++ (48 + n % 10) ∷ []

unfoldable pub decimal : ℕ → Bytes
unfolding digits_within
decimal n = digits_within (suc n) n

abbrev zeros : ℕ → Bytes
zeros zero = []
zeros (suc n) = 48 ∷ zeros n

-- `%010d`
unfoldable pub padded : ℕ → Bytes
unfolding decimal
padded n = zeros (10 - length (decimal n)) ++ decimal n

-- The number that digits stand for, after those already read.
abbrev pub read_digits : ℕ → Bytes → ℕ
read_digits n [] = n
read_digits n (c ∷ cs) = read_digits (n * 10 + (c - 48)) cs

read_digits-append :
    (n : ℕ) (xs ys : Bytes) → read_digits n (xs ++ ys) ≡ read_digits (read_digits n xs) ys
read_digits-append n [] ys = refl
read_digits-append n (x ∷ xs) ys = read_digits-append (n * 10 + (x - 48)) xs ys

read_digits-zeros : (n : ℕ) → read_digits 0 (zeros n) ≡ 0
read_digits-zeros zero = refl
read_digits-zeros (suc n) = read_digits-zeros n

read_digits-within : (fuel n : ℕ) → n < fuel → read_digits 0 (digits_within fuel n) ≡ n
unfolding digits_within
read_digits-within zero n h = elim h [ ]
read_digits-within (suc fuel) n h =
    if_cases (λ (xs : Bytes). read_digits 0 xs ≡ n) (ltb n 10) (λ _. omega arith)
      (λ big.
        read_digits-append 0 (digits_within fuel (n / 10)) ((48 + n % 10) ∷ [])
        ∙ ap (λ m. m * 10 + (48 + n % 10 - 48))
            (read_digits-within fuel (n / 10) (ground (arith, big)))
        ∙ omega arith)

read_digits-decimal : (n : ℕ) → read_digits 0 (decimal n) ≡ n
unfolding decimal
read_digits-decimal n = read_digits-within (suc n) n (omega arith)

read_digits-padded : (n : ℕ) → read_digits 0 (padded n) ≡ n
unfolding padded
read_digits-padded n =
    read_digits-append 0 (zeros (10 - length (decimal n))) (decimal n)
    ∙ ap (λ m. read_digits m (decimal n)) (read_digits-zeros (10 - length (decimal n)))
    ∙ read_digits-decimal n

-- Nothing but the digits 0 to 9.
abbrev pub AreDigits : Bytes → Type 0
AreDigits cs = All (λ c. (48 ≤ c) × (c ≤ 57)) cs

-- Digits that stand for the number.
abbrev pub Numeral : ℕ → Bytes → Type 0
Numeral n digits = AreDigits digits × (read_digits 0 digits ≡ n)

AreDigits-append : (xs ys : Bytes) → AreDigits xs → AreDigits ys → AreDigits (xs ++ ys)
AreDigits-append [] ys _ hs = hs
AreDigits-append (x ∷ xs) ys (h, hs) ks = (h, AreDigits-append xs ys hs ks)

zeros-AreDigits : (n : ℕ) → AreDigits (zeros n)
zeros-AreDigits zero = tt
zeros-AreDigits (suc n) = ((omega arith, omega arith), zeros-AreDigits n)

digits_within-AreDigits : (fuel n : ℕ) → AreDigits (digits_within fuel n)
unfolding digits_within
digits_within-AreDigits zero n = tt
digits_within-AreDigits (suc fuel) n =
    if_cases AreDigits (ltb n 10) (λ small. (ground (arith, small), tt))
      (λ _.
        AreDigits-append (digits_within fuel (n / 10)) ((48 + n % 10) ∷ [])
          (digits_within-AreDigits fuel (n / 10)) ((omega arith, omega arith), tt))

decimal-AreDigits : (n : ℕ) → AreDigits (decimal n)
unfolding decimal
decimal-AreDigits n = digits_within-AreDigits (suc n) n

pub decimal-Numeral : (n : ℕ) → Numeral n (decimal n)
decimal-Numeral n = (decimal-AreDigits n, read_digits-decimal n)

pub padded-Numeral : (n : ℕ) → Numeral n (padded n)
unfolding padded
padded-Numeral n = (
  AreDigits-append (zeros (10 - length (decimal n))) (decimal n)
      (zeros-AreDigits (10 - length (decimal n))) (decimal-AreDigits n),
  read_digits-padded n,
)

length-zeros : (n : ℕ) → length (zeros n) ≡ n
length-zeros zero = refl
length-zeros (suc n) = ap suc (length-zeros n)

pub padded-long : (n : ℕ) → 10 ≤ length (padded n)
unfolding padded
padded-long n = grind (
  arith,
  length-append (zeros (10 - length (decimal n))) (decimal n),
  length-zeros (10 - length (decimal n)),
)
