-- ===== src/Security/Examples.antt =====
-- The theorems on secrets and passwords, with stand-ins for the encryption and the hash.
use restoreguard.Common.{
  ℕ, zero, suc, ◌+◌, ◌≤◌, ◌≡◌, refl, ap, ◌↔◌, true, false, ◌==◌, Option, none, some, [], ◌∷◌, ◌++◌,
  length, if◌then◌else◌, if_cases, All, arith, ◌-◌,
}
use restoreguard.Worker.World.{Bytes}
use restoreguard.Report.Text.{codes}
use restoreguard.Storage.Keys.{same_bytes}
use restoreguard.Security.Secrets.{Aead, SecretStore, encrypt, decrypt}
use restoreguard.Security.Tenancy.{IsAuthentic, decrypt-encrypt}
use restoreguard.Security.Passwords.{
  Hashing, dollar, encoded_text, hash_salted, hash_password, verify_password,
}
use restoreguard.Security.Verification.{IsSound, stored_key, verify-hash_password}

-- A stand-in that seals a text by writing the nonce, the additional data and the text, each with its
-- bytes marked.
abbrev marked : Bytes → Bytes → Bytes
marked [] rest = 0 ∷ rest
marked (x ∷ xs) rest = 1 ∷ x ∷ marked xs rest

abbrev unmarked : Bytes → Bytes → Option Bytes
unmarked [] [] = none
unmarked [] (c ∷ cs) = if c == 0 then some cs else none
unmarked (x ∷ xs) [] = none
unmarked (x ∷ xs) (c ∷ []) = none
unmarked (x ∷ xs) (c ∷ d ∷ cs) =
    let rest = unmarked xs cs in if c == 1 then (if d == x then rest else none) else none

unmarked-marked : (xs rest : Bytes) → unmarked xs (marked xs rest) ≡ some rest
unmarked-marked [] rest = refl
unmarked-marked (x ∷ xs) rest =
    if_cases (λ (o : Option Bytes). o ≡ some rest) (x == x) (λ _. unmarked-marked xs rest)
      (λ n. absurd (ground (arith, n)))

marked_only : (xs sealed rest : Bytes) → unmarked xs sealed ≡ some rest → sealed ≡ marked xs rest
marked_only [] [] rest h = cc h
marked_only [] (c ∷ cs) rest h = ground (arith, h)
marked_only (x ∷ xs) [] rest h = cc h
marked_only (x ∷ xs) (c ∷ []) rest h = cc h
marked_only (x ∷ xs) (c ∷ d ∷ cs) rest h = ground (arith, h, marked_only xs cs rest)

head_of : Bytes → ℕ
head_of [] = 0
head_of (x ∷ xs) = x

tail_of : Bytes → Bytes
tail_of [] = []
tail_of (x ∷ xs) = xs

marked-injective : (xs ys s t : Bytes) → marked xs s ≡ marked ys t → xs ≡ ys
unfolding head_of tail_of
marked-injective [] [] s t h = refl
marked-injective [] (y ∷ ys) s t h = absurd (omega (arith, ap head_of h))
marked-injective (x ∷ xs) [] s t h = absurd (omega (arith, ap head_of h))
marked-injective (x ∷ xs) (y ∷ ys) s t h =
    let first : x ≡ y = ap (λ l. head_of (tail_of l)) h in
    let rest : marked xs s ≡ marked ys t = ap (λ l. tail_of (tail_of l)) h in
    λ i. first i ∷ marked-injective xs ys s t rest i

abbrev cipher : Aead
cipher = record {
  nonce_size = 2;
  seal = λ key nonce text extra. marked extra text;
  unseal = λ key nonce sealed extra. unmarked extra sealed;
  fails = false;
  decode_base64 = λ text. some text;
}

cipher-IsAuthentic : IsAuthentic cipher
cipher-IsAuthentic = record {
  unseal-seal = λ key nonce text extra. unmarked-marked extra text;
  sealed_only = λ key nonce sealed text extra h. marked_only extra sealed text h;
  binding = λ key nonce text extra text' extra' h. marked-injective extra extra' text text' h;
}

abbrev secrets : SecretStore
secrets = record { key = codes "0123456789abcdef0123456789abcdef" }

abbrev secret : Bytes
secret = 7 ∷ 9 ∷ marked (codes "acme") (codes "s3")

encrypt-ok : encrypt cipher secrets (some (7 ∷ 9 ∷ [])) (codes "acme") (codes "s3") ≡ some secret
unfolding encrypt
encrypt-ok = refl

decrypt-encrypt_example :
    (decrypt cipher secrets (codes "other") secret ≡ some (codes "s3"))
    ↔ ((codes "other" ≡ codes "acme") × (codes "s3" ≡ codes "s3"))
decrypt-encrypt_example =
    decrypt-encrypt cipher secrets cipher-IsAuthentic (7 ∷ 9 ∷ []) (codes "acme") (codes "s3")
      secret (codes "other") (codes "s3") refl encrypt-ok

-- A stand-in for Argon2 that repeats the password up to the size.
abbrev filled : ℕ → Bytes → Bytes
filled zero cs = []
filled (suc n) [] = 0 ∷ filled n []
filled (suc n) (c ∷ cs) = c ∷ filled n cs

length-filled : (n : ℕ) (cs : Bytes) → length (filled n cs) ≡ n
length-filled zero cs = refl
length-filled (suc n) [] = ap suc (length-filled n [])
length-filled (suc n) (c ∷ cs) = ap suc (length-filled n cs)

-- A stand-in for base64 that moves the bytes above the dollar.
abbrev moved : Bytes → Bytes
moved [] = []
moved (c ∷ cs) = (37 + c) ∷ moved cs

abbrev moved_back : Bytes → Bytes
moved_back [] = []
moved_back (c ∷ cs) = (c - 37) ∷ moved_back cs

moved_back-moved : (cs : Bytes) → some (moved_back (moved cs)) ≡ some cs
moved_back-moved cs = ap some (same cs)
  where
    same : (cs : Bytes) → moved_back (moved cs) ≡ cs
    same [] = refl
    same (c ∷ cs) = λ i. back c i ∷ same cs i
      where
        back : (c : ℕ) → 37 + c - 37 ≡ c
        back c = omega arith

moved-All : (cs : Bytes) → All (λ c. (c == dollar) ≡ false) (moved cs)
moved-All [] = tt
moved-All (c ∷ cs) = (ground arith, moved-All cs)

abbrev hashing : Hashing
hashing = record {
  id_key = λ password salt time memory threads size. filled size (password ++ salt);
  encode = moved;
  decode = λ text. some (moved_back text);
  scan = λ text. if same_bytes text (codes "m=65536,t=3,p=2") then some (65536, 3, 2) else none;
}

hashing-IsSound : IsSound hashing
unfolding same_bytes
hashing-IsSound = record {
  sized = λ password salt time memory threads size. length-filled size (password ++ salt);
  decode-encode = moved_back-moved;
  alphabet = moved-All;
  scanned = refl;
}

abbrev stored : Option Bytes
stored = hash_password hashing (some (codes "salt")) (codes "correct horse")

abbrev stored_text : Bytes
stored_text = encoded_text hashing (codes "salt") (filled 32 (codes "correct horsesalt"))

stored-ok : stored ≡ some stored_text
unfolding hash_password hash_salted
stored-ok = refl

verify-hash_password_example :
    (12 ≤ 13)
    × (13 ≤ 256)
    × ((verify_password hashing stored_text (codes "wrong horse 1") ≡ true) ↔ (
        stored_key hashing hashing-IsSound (codes "wrong horse 1") (codes "salt")
        ≡ stored_key hashing hashing-IsSound (codes "correct horse") (codes "salt")))
    × (verify_password hashing stored_text (codes "correct horse") ≡ true)
verify-hash_password_example =
    verify-hash_password hashing hashing-IsSound (codes "salt") (codes "correct horse") stored_text
      (codes "wrong horse 1") stored-ok
