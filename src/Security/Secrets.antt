-- ===== src/Security/Secrets.antt =====
-- The secret store (backend/internal/security/secret.go: NewSecretStore, Encrypt, Decrypt). The
-- authenticated encryption and the decoding of base64 are parameters.
use restoreguard.Common.{
  ℕ, Bool, not, Option, none, some, ◌++◌, ltb, ◌==◌, length, take, drop, if◌then◌else◌,
}
use restoreguard.Worker.World.{Bytes}

-- AES-GCM: Seal and Open, with the key, the nonce, the text and the additional data.
pub record Aead : Type 0 where
  pub nonce_size : ℕ
  pub seal : Bytes → Bytes → Bytes → Bytes → Bytes
  pub unseal : Bytes → Bytes → Bytes → Bytes → Option Bytes
  -- NewCipher or NewGCM reports an error
  pub fails : Bool
  pub decode_base64 : Bytes → Option Bytes

pub record SecretStore : Type 0 where
  pub key : Bytes

abbrev store_of : Aead → Option Bytes → Option SecretStore
store_of c none = none
store_of c (some key) =
    if not (length key == 32) then none else if c.fails then none else some (record { key = key })

unfoldable new_secret_store : Aead → Bytes → Option SecretStore
new_secret_store c base64_key = store_of c (c.decode_base64 base64_key)

-- The nonce is what the random generator gives, if it does not fail.
unfoldable pub encrypt : Aead → SecretStore → Option Bytes → Bytes → Bytes → Option Bytes
encrypt c s none organization_id plaintext = none
encrypt c s (some nonce) organization_id plaintext =
    some (nonce ++ c.seal s.key nonce plaintext organization_id)

unfoldable pub decrypt : Aead → SecretStore → Bytes → Bytes → Option Bytes
decrypt c s organization_id ciphertext =
    if ltb (length ciphertext) c.nonce_size
    then none
    else c.unseal s.key (take c.nonce_size ciphertext) (drop c.nonce_size ciphertext)
        organization_id
