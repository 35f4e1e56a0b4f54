-- ===== src/Security/Passwords.antt =====
-- The hashes of passwords (backend/internal/security/password.go: HashPassword, VerifyPassword).
-- Argon2, base64 and the scanner of Go's fmt are parameters.
use restoreguard.Common.{
  ℕ, ◌*◌, Bool, false, ◌||◌, not, Option, none, some, [], ◌∷◌, ◌++◌, ltb, ◌==◌, length,
  if◌then◌else◌,
}
use restoreguard.Worker.World.{Bytes}
use restoreguard.Report.Text.{codes, decimal}
use restoreguard.Storage.Keys.{Segments, attach, same_bytes}

pub record Hashing : Type 0 where
  -- password, salt, iterations, memory, threads and length
  pub id_key : Bytes → Bytes → ℕ → ℕ → ℕ → ℕ → Bytes
  pub encode : Bytes → Bytes
  pub decode : Bytes → Option Bytes
  -- `fmt.Sscanf(text, "m=%d,t=%d,p=%d", &memory, &iterations, &threads)`
  pub scan : Bytes → Option (ℕ × ℕ × ℕ)

abbrev pub argon_memory : ℕ
argon_memory = 64 * 1024

abbrev pub argon_time : ℕ
argon_time = 3

abbrev pub argon_threads : ℕ
argon_threads = 2

abbrev pub argon_key_len : ℕ
argon_key_len = 32

abbrev pub dollar : ℕ
dollar = 36

-- `m=%d,t=%d,p=%d`
unfoldable pub parameters_text : Bytes
unfolding decimal
parameters_text =
    codes "m="
    ++ (decimal argon_memory
        ++ (codes ",t=" ++ (decimal argon_time ++ (codes ",p=" ++ decimal argon_threads))))

unfoldable pub encoded_text : Hashing → Bytes → Bytes → Bytes
unfolding parameters_text
encoded_text c salt hash =
    dollar
    ∷ (codes "argon2id"
        ++ (dollar
            ∷ (codes "v=19"
                ++ (dollar
                    ∷ (parameters_text
                        ++ (dollar ∷ (c.encode salt ++ (dollar ∷ c.encode hash))))))))

-- The salt is what the random generator gives, if it does not fail.
unfoldable pub hash_salted : Hashing → Option Bytes → Bytes → Option Bytes
unfolding encoded_text
hash_salted c none password = none
hash_salted c (some salt) password = some (
    encoded_text c salt
      (c.id_key password salt argon_time argon_memory argon_threads argon_key_len))

unfoldable pub hash_password : Hashing → Option Bytes → Bytes → Option Bytes
unfolding hash_salted
hash_password c salt password =
    if ltb (length password) 12 || ltb 256 (length password)
    then none
    else hash_salted c salt password

-- `strings.Split(encoded, "$")`
unfoldable pub parts : Bytes → Segments
parts [] = [] ∷ []
parts (c ∷ cs) = let rest = parts cs in if c == dollar then [] ∷ rest else attach c rest

abbrev too_costly : ℕ × ℕ × ℕ → Bool
too_costly (memory, iterations, threads) =
    ltb (128 * 1024) memory || ltb 10 iterations || ltb 8 threads

abbrev compares : Hashing → Bytes → ℕ × ℕ × ℕ → Option Bytes → Option Bytes → Bool
compares c password (memory, iterations, threads) none want = false
compares c password (memory, iterations, threads) (some salt) none = false
compares c password (memory, iterations, threads) (some salt) (some want) =
    same_bytes (c.id_key password salt iterations memory threads (length want)) want

abbrev verify_scanned : Hashing → Bytes → Bytes → Bytes → Option (ℕ × ℕ × ℕ) → Bool
verify_scanned c password salt want none = false
verify_scanned c password salt want (some cost) =
    if too_costly cost then false else compares c password cost (c.decode salt) (c.decode want)

-- The parts number six.
abbrev verify_parts : Hashing → Bytes → Segments → Bool
verify_parts c password (empty ∷ name ∷ version ∷ cost ∷ salt ∷ want ∷ []) =
    if not (same_bytes name (codes "argon2id"))
    then false
    else verify_scanned c password salt want (c.scan cost)
verify_parts c password _ = false

unfoldable pub verify_password : Hashing → Bytes → Bytes → Bool
unfolding parts same_bytes
verify_password c encoded password = verify_parts c password (parts encoded)
