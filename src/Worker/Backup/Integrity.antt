-- ===== src/Worker/Backup/Integrity.antt =====
-- The integrity test of the staged backup, and the identifier of its sandbox.
use restoreguard.Common.{
  List, if_cases, ltb, ℕ, zero, suc, ◌+◌, ◌^◌, ◌≤◌, ◌<◌, ◌≡◌, refl, ap, true, false, Option, none,
  some, [], ◌∷◌, map, length, take, ◌↔◌, length-take, arith, All,
}
use restoreguard.Worker.World.{Bytes}
use restoreguard.Worker.Backup.{
  is_alphanumeric, keep_alphanumeric, compact_id, fold_case, equal_fold, equal_hash, read_limited,
  checksum_differs, is_rejected,
}

pub take-all : (n : ℕ) (xs : Bytes) → length (take n xs) < n → take n xs ≡ xs
take-all zero xs h = ground arith
take-all (suc n) [] h = refl
take-all (suc n) (x ∷ xs) h = ap (λ ys. x ∷ ys) (take-all n xs (ground arith))

take-whole : {A : Type 0} (n : ℕ) (xs : List A) → length xs ≤ n → take n xs ≡ xs
take-whole zero [] h = refl
take-whole zero (x ∷ xs) h = absurd (omega (arith, h))
take-whole (suc n) [] h = refl
take-whole (suc n) (x ∷ xs) h = ap (λ l. x ∷ l) (take-whole n xs (omega (arith, h)))

-- A content within the limit is read whole.
pub read-whole :
    (limit : ℕ) (content : Bytes)
    → limit + 1 < 2 ^ 63
    → length content ≤ limit
    → read_limited limit content ≡ content
unfolding read_limited
read-whole limit content h k =
    if_cases (λ (l : Bytes). l ≡ content) (ltb (limit + 1) (2 ^ 63))
      (λ _. take-whole (limit + 1) content (omega (arith, k))) (λ n. absurd (ground (arith, h, n)))

-- What was read and is within the limit is the whole content.
pub read-within :
    (limit : ℕ) (content : Bytes)
    → limit + 1 < 2 ^ 63
    → length (read_limited limit content) ≤ limit
    → read_limited limit content ≡ content
unfolding read_limited
read-within limit content small h = ground (arith, small, h, take-all (limit + 1) content)

-- The texts are equal up to the case of their letters.
abbrev pub SameText : Bytes → Bytes → Type 0
SameText a b = map fold_case a ≡ map fold_case b

equal_fold-SameText : (a b : Bytes) → equal_fold a b ≡ true → SameText a b
unfolding equal_fold
equal_fold-SameText [] [] h = refl
equal_fold-SameText [] (y ∷ ys) h = cc
equal_fold-SameText (x ∷ xs) [] h = cc
equal_fold-SameText (x ∷ xs) (y ∷ ys) h =
    let rest : equal_fold xs ys ≡ true → SameText xs ys = equal_fold-SameText xs ys in
    ground (arith, rest)

SameText-equal_fold : (a b : Bytes) → SameText a b → equal_fold a b ≡ true
unfolding equal_fold
SameText-equal_fold [] [] h = refl
SameText-equal_fold [] (y ∷ ys) h = cc h
SameText-equal_fold (x ∷ xs) [] h = cc h
SameText-equal_fold (x ∷ xs) (y ∷ ys) h =
    let first : fold_case x ≡ fold_case y = cc h in
    let rest : equal_fold xs ys ≡ true = SameText-equal_fold xs ys (cc h) in
    ground (arith, first, rest)

pub equal_fold_iff : (a b : Bytes) → (equal_fold a b ≡ true) ↔ SameText a b
equal_fold_iff a b = (equal_fold-SameText a b, SameText-equal_fold a b)

-- The snapshot has no checksum, or the hash is the checksum up to case.
abbrev pub Agrees : Option Bytes → Bytes → Type 0
Agrees none hash = Unit {0}
Agrees (some []) hash = Unit {0}
Agrees (some (c ∷ cs)) hash = SameText (c ∷ cs) hash

checksum-Agrees :
    (sum : Option Bytes) (hash : Bytes) → checksum_differs sum hash ≡ false → Agrees sum hash
unfolding equal_hash
checksum-Agrees none hash h = tt
checksum-Agrees (some []) hash h = tt
checksum-Agrees (some (c ∷ cs)) hash h = ground (arith, equal_fold-SameText (c ∷ cs) hash)

-- A backup that passes the integrity test was staged whole and is within the limit, its reported
-- size is right, and its hash is the checksum of the snapshot where there is one; the limit is below
-- the largest int64.
pub accepted_whole :
    (limit size : ℕ) (content hash : Bytes) (sum : Option Bytes)
    → limit + 1 < 2 ^ 63
    → is_rejected limit (length (read_limited limit content)) size sum hash ≡ false
    → (read_limited limit content ≡ content)
      × (length content ≤ limit)
      × (size ≡ length content)
      × Agrees sum hash
unfolding is_rejected read_limited
accepted_whole limit size content hash sum small h =
    ground (arith, take-all (limit + 1) content, checksum-Agrees sum hash)

abbrev AllAlphanumeric : Bytes → Type 0
AllAlphanumeric cs = All (λ c. is_alphanumeric c ≡ true) cs

keep-AllAlphanumeric : (id : Bytes) → AllAlphanumeric (keep_alphanumeric id)
unfolding keep_alphanumeric
keep-AllAlphanumeric [] = tt
keep-AllAlphanumeric (c ∷ cs) = ground (arith, keep-AllAlphanumeric cs)

take-AllAlphanumeric : (n : ℕ) (cs : Bytes) → AllAlphanumeric cs → AllAlphanumeric (take n cs)
take-AllAlphanumeric zero cs h = tt
take-AllAlphanumeric (suc n) [] h = tt
take-AllAlphanumeric (suc n) (c ∷ cs) (h, hs) = (h, take-AllAlphanumeric n cs hs)

-- Whatever the identifier, `compactID` gives at most eighteen ASCII letters and digits.
compact_id-AllAlphanumeric :
    (id : Bytes) → AllAlphanumeric (compact_id id) × (length (compact_id id) ≤ 18)
unfolding compact_id
compact_id-AllAlphanumeric id =
    let kept = keep-AllAlphanumeric id in
    ground (
      arith,
      kept,
      take-AllAlphanumeric 18 (keep_alphanumeric id) kept,
      length-take 18 (keep_alphanumeric id),
    )
