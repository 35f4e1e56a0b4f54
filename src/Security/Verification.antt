-- ===== src/Security/Verification.antt =====
-- Which passwords a hash accepts.
use restoreguard.Common.{
  ℕ, ◌≡◌, refl, ap, ◌∙◌, ◌≤◌, subst, ◌↔◌, true, false, ◌||◌, some, [], ◌∷◌, ◌++◌, ltb, ◌==◌, length,
  if_ne, All, arith,
}
use restoreguard.Worker.World.{Bytes}
use restoreguard.Report.Text.{codes}
use restoreguard.Storage.Keys.{same_bytes}
use restoreguard.Storage.Keys.Inside.{same_bytes_refl, same_bytes-eq}
use restoreguard.Security.Passwords.{
  Hashing, argon_memory, argon_time, argon_threads, argon_key_len, dollar, parameters_text,
  encoded_text, hash_salted, hash_password, parts, verify_password,
}

abbrev NoDollar : Bytes → Type 0
NoDollar cs = All (λ c. (c == dollar) ≡ false) cs

-- What the hash, base64 and the scanner are documented to do.
pub record IsSound (c : Hashing) : Type 0 where
  pub sized :
      (password salt : Bytes) (time memory threads size : ℕ)
      → length (c.id_key password salt time memory threads size) ≡ size
  pub decode-encode : (text : Bytes) → c.decode (c.encode text) ≡ some text
  pub alphabet : (text : Bytes) → All (λ b. (b == dollar) ≡ false) (c.encode text)
  pub scanned : c.scan (codes "m=65536,t=3,p=2") ≡ some (argon_memory, argon_time, argon_threads)

parts-append : (xs ys : Bytes) → NoDollar xs → parts (xs ++ dollar ∷ ys) ≡ xs ∷ parts ys
unfolding parts
parts-append [] ys h = refl
parts-append (x ∷ xs) ys (h, hs) = rw (h, parts-append xs ys hs) refl

parts-last : (xs : Bytes) → NoDollar xs → parts xs ≡ xs ∷ []
unfolding parts
parts-last [] h = refl
parts-last (x ∷ xs) (h, hs) = rw (h, parts-last xs hs) refl

parameters : parameters_text ≡ codes "m=65536,t=3,p=2"
unfolding parameters_text
parameters = refl

module _ (c : Hashing) (sound : IsSound c) where
  encoded-parts :
      (salt hash : Bytes)
      → parts (encoded_text c salt hash)
        ≡ []
          ∷ codes "argon2id"
          ∷ codes "v=19"
          ∷ codes "m=65536,t=3,p=2"
          ∷ c.encode salt
          ∷ c.encode hash
          ∷ []
  unfolding encoded_text
  encoded-parts salt hash =
      rw
        (
          parameters,
          parts-append []
              (codes "argon2id"
                ++ (dollar
                    ∷ (codes "v=19"
                        ++ (dollar
                            ∷ (codes "m=65536,t=3,p=2"
                                ++ (dollar ∷ (c.encode salt ++ (dollar ∷ c.encode hash))))))))
              tt,
          parts-append (codes "argon2id")
              (codes "v=19"
                ++ (dollar
                    ∷ (codes "m=65536,t=3,p=2"
                        ++ (dollar ∷ (c.encode salt ++ (dollar ∷ c.encode hash))))))
              (ground arith),
          parts-append (codes "v=19")
              (codes "m=65536,t=3,p=2" ++ (dollar ∷ (c.encode salt ++ (dollar ∷ c.encode hash))))
              (ground arith),
          parts-append (codes "m=65536,t=3,p=2") (c.encode salt ++ (dollar ∷ c.encode hash))
              (ground arith),
          parts-append (c.encode salt) (c.encode hash) (sound.alphabet salt),
          parts-last (c.encode hash) (sound.alphabet hash),
        )
        refl

  -- The key that Argon2 gives under the program's parameters.
  abbrev pub stored_key : Bytes → Bytes → Bytes
  stored_key password salt =
      c.id_key password salt argon_time argon_memory argon_threads argon_key_len

  compared :
      (other salt hash : Bytes)
      → length hash ≡ argon_key_len
      → (verify_password c (encoded_text c salt hash) other ≡ true) ↔ (stored_key other salt ≡ hash)
  unfolding verify_password
  compared other salt hash size =
      rw
        (
          encoded-parts salt hash,
          sound.scanned,
          sound.decode-encode salt,
          sound.decode-encode hash,
          size,
        )
        (
          same_bytes-eq (stored_key other salt) hash,
          λ e. ap (λ k. same_bytes k hash) e ∙ same_bytes_refl hash,
        )

  -- With a sound hash, base64 and scanner: HashPassword refuses a password of fewer than 12 or more
  -- than 256 bytes, and a text that it gave for a password is verified for another exactly when
  -- Argon2 gives both the same key under the salt of the text, so always for the password itself.
  pub verify-hash_password :
      (salt password text other : Bytes)
      → hash_password c (some salt) password ≡ some text
      → (12 ≤ length password)
        × (length password ≤ 256)
        × ((verify_password c text other ≡ true)
            ↔ (stored_key other salt ≡ stored_key password salt))
        × (verify_password c text password ≡ true)
  unfolding hash_password hash_salted
  verify-hash_password salt password text other h =
      let (fits, k) = if_ne (ltb (length password) 12 || ltb 256 (length password)) (λ e. cc e) h in
      let made : encoded_text c salt (stored_key password salt) ≡ text = some-injective k in
      let size = sound.sized password salt argon_time argon_memory argon_threads argon_key_len in
      let both = λ (q : Bytes).
        subst (λ t. (verify_password c t q ≡ true) ↔ (stored_key q salt ≡ stored_key password salt))
          made (compared q salt (stored_key password salt) size) in
      (ground (arith, fits), ground (arith, fits), both other, (both password).1 refl)
    where
      some-injective : {x y : Bytes} → some x ≡ some y → x ≡ y
      some-injective e = cc e
