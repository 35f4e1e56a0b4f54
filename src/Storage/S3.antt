-- ===== src/Storage/S3.antt =====
-- The object storage in a bucket of S3 (backend/internal/storage/s3.go: NewS3, Put, Get, Delete,
-- Health, EnsureBucket). The client of minio is a parameter, over a type of buckets of its own.
pub mod Laws
use restoreguard.Common.{
  ℕ, zero, suc, Bool, true, false, ◌||◌, not, Option, none, some, List, [], ◌∷◌, if◌then◌else◌,
}
use restoreguard.Common.Int.{ℤ, pos, negsuc}
use restoreguard.Worker.World.{Bytes}
use restoreguard.Storage.Keys.{safe_key}
use restoreguard.Storage.Local.{StoredInfo, unsafe_key, system_error, Reply, error, ok, exceeds}

-- What PutObject reports, and what it read on the way.
pub record Upload : Type 0 where
  pub size : ℕ
  pub read : Bytes

-- The size and the type of a content.
abbrev pub Stat : Type 0
Stat = ℕ × Bytes

-- The calls of the client; none, and true for a call without a value, is an error.
pub record Client (B : Type 0) : Type 0 where
  pub new_client : Bool
  -- the key, the reader, the size and the type
  pub put_object : Bytes → Bytes → ℕ → Bytes → B → Option Upload × B
  pub get_object : Bytes → B → Option Bytes
  pub stat_object : Bytes → B → Option Stat
  pub remove_object : Bytes → B → Bool × B
  pub bucket_exists : B → Option Bool
  pub make_bucket : B → Bool × B
  pub sha256_hex : Bytes → Bytes

module _ {B : Type 0} (c : Client B) where
  -- The limit of the storage.
  unfoldable new_s3 : ℤ → Option ℕ
  new_s3 (pos zero) = none
  new_s3 (pos (suc n)) = if c.new_client then none else some (suc n)
  new_s3 (negsuc n) = none

  -- The size is not negative where it is used.
  abbrev magnitude : ℤ → ℕ
  magnitude (pos n) = n
  magnitude (negsuc n) = 0

  abbrev pub put_reply : Bytes → Bytes → Option Upload → Reply StoredInfo
  put_reply key content_type none = error system_error
  put_reply key content_type (some u) = ok (record {
    key = key;
    size = u.size;
    sha256 = c.sha256_hex u.read;
    content_type = content_type;
  })

  unfoldable pub put : ℕ → Bytes → Bytes → ℤ → Bytes → B → Reply StoredInfo × B
  unfolding safe_key
  put max_bytes key content size content_type b =
      if not (safe_key key) || exceeds size max_bytes then (error unsafe_key, b) else (
        put_reply key content_type (c.put_object key content (magnitude size) content_type b).0,
        (c.put_object key content (magnitude size) content_type b).1,
      )

  abbrev with_stat : Bytes → Bytes → Option Stat → Reply (Bytes × StoredInfo)
  with_stat key content none = error system_error
  with_stat key content (some (size, content_type)) =
      ok (content, record { key = key; size = size; sha256 = []; content_type = content_type })

  abbrev pub opened : Bytes → Option Bytes → Option Stat → Reply (Bytes × StoredInfo)
  opened key none stat = error system_error
  opened key (some content) stat = with_stat key content stat

  unfoldable pub get : Bytes → B → Reply (Bytes × StoredInfo)
  unfolding safe_key
  get key b =
      if not (safe_key key)
      then error unsafe_key
      else opened key (c.get_object key b) (c.stat_object key b)

  abbrev pub done : Bool × B → Reply (Unit {0}) × B
  done (true, b) = (error system_error, b)
  done (false, b) = (ok tt, b)

  unfoldable pub delete : Bytes → B → Reply (Unit {0}) × B
  unfolding safe_key
  delete key b = if not (safe_key key) then (error unsafe_key, b) else done (c.remove_object key b)

  abbrev health_reply : Option Bool → Reply (Unit {0})
  health_reply none = error system_error
  health_reply (some exists) = ok tt

  unfoldable pub health : B → Reply (Unit {0})
  health b = health_reply (c.bucket_exists b)

  abbrev ensure : B → Option Bool → Reply (Unit {0}) × B
  ensure b none = (error system_error, b)
  ensure b (some true) = (ok tt, b)
  ensure b (some false) = done (c.make_bucket b)

  unfoldable pub ensure_bucket : B → Reply (Unit {0}) × B
  ensure_bucket b = ensure b (c.bucket_exists b)
