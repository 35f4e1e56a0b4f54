-- ===== src/Security/Tenancy.antt =====
-- Who can read a secret.
use restoreguard.Common.{
  ◌≡◌, refl, sym, ap, ◌∙◌, subst, ◌↔◌, Option, some, [], ◌∷◌, ◌++◌, ltb, length, length-append,
  take, drop, if_cases, arith,
}
use restoreguard.Worker.World.{Bytes}
use restoreguard.Security.Secrets.{Aead, SecretStore, encrypt, decrypt}

-- What the encryption guarantees: a sealed text is opened with the same nonce and data, only a text
-- that was sealed with them is opened, and no two data seal to one text.
pub record IsAuthentic (c : Aead) : Type 0 where
  pub unseal-seal :
      (key nonce text extra : Bytes)
      → c.unseal key nonce (c.seal key nonce text extra) extra ≡ some text
  pub sealed_only :
      (key nonce sealed text extra : Bytes)
      → c.unseal key nonce sealed extra ≡ some text
      → sealed ≡ c.seal key nonce text extra
  pub binding :
      (key nonce text extra text' extra' : Bytes)
      → c.seal key nonce text extra ≡ c.seal key nonce text' extra'
      → extra ≡ extra'

take-nonce : (nonce rest : Bytes) → take (length nonce) (nonce ++ rest) ≡ nonce
take-nonce [] rest = refl
take-nonce (x ∷ xs) rest = ap (λ l. x ∷ l) (take-nonce xs rest)

drop-nonce : (nonce rest : Bytes) → drop (length nonce) (nonce ++ rest) ≡ rest
drop-nonce [] rest = refl
drop-nonce (x ∷ xs) rest = drop-nonce xs rest

module _ (c : Aead) (s : SecretStore) where
  decrypt-append :
      (nonce sealed organization : Bytes)
      → length nonce ≡ c.nonce_size
      → decrypt c s organization (nonce ++ sealed) ≡ c.unseal s.key nonce sealed organization
  unfolding decrypt
  decrypt-append nonce sealed organization size =
      if_cases (λ (o : Option Bytes). o ≡ c.unseal s.key nonce sealed organization)
        (ltb (length (nonce ++ sealed)) c.nonce_size)
        (λ short. absurd (ground (arith, short, length-append nonce sealed, size)))
        (λ _.
          subst
            (λ n.
              c.unseal s.key (take n (nonce ++ sealed)) (drop n (nonce ++ sealed)) organization
              ≡ c.unseal s.key nonce sealed organization)
            size (rw (take-nonce nonce sealed, drop-nonce nonce sealed) refl))

  -- With an authentic encryption and a nonce of its size: what Encrypt gave for an organization,
  -- Decrypt opens for that organization and no other, and only to the plaintext.
  pub decrypt-encrypt :
      IsAuthentic c
      → (nonce organization plaintext ciphertext other text : Bytes) → length nonce ≡ c.nonce_size
      → encrypt c s (some nonce) organization plaintext ≡ some ciphertext
      → (decrypt c s other ciphertext ≡ some text) ↔ ((other ≡ organization) × (text ≡ plaintext))
  unfolding encrypt
  decrypt-encrypt a nonce organization plaintext ciphertext other text size h =
      let sealed = c.seal s.key nonce plaintext organization in
      let made : nonce ++ sealed ≡ ciphertext = some-injective h in
      let opens : decrypt c s other ciphertext ≡ c.unseal s.key nonce sealed other =
        ap (decrypt c s other) (sym made) ∙ decrypt-append nonce sealed other size in
      (
        λ k.
            let same : other ≡ organization = sym (
              a.binding s.key nonce plaintext organization text other
                (a.sealed_only s.key nonce sealed text other (sym opens ∙ k))) in
            (
              same,
              some-injective (
                  sym k
                  ∙ opens
                  ∙ ap (c.unseal s.key nonce sealed) same
                  ∙ a.unseal-seal s.key nonce plaintext organization),
            ),
        λ (same, e).
            opens
            ∙ ap (c.unseal s.key nonce sealed) same
            ∙ a.unseal-seal s.key nonce plaintext organization
            ∙ ap some (sym e),
      )
    where
      some-injective : {x y : Bytes} → some x ≡ some y → x ≡ y
      some-injective k = cc k
