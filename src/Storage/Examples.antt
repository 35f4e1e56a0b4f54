-- ===== src/Storage/Examples.antt =====
-- The theorems on backend/internal/storage/local.go at concrete keys and files.
use restoreguard.Common.{
  ◌≡◌, refl, ◌↔◌, Bool, true, List, Option, sym, if◌then◌else◌, if_cases, if_true, map, false, none,
  some, [], ◌∷◌, ◌++◌, arith, length,
}
use restoreguard.Common.Int.{pos}
use restoreguard.Worker.World.{Bytes}
use restoreguard.Worker.Backup.{read_limited}
use restoreguard.Storage.Keys.{Segments, split, path, safe_key, same_bytes}
use restoreguard.Storage.Keys.Inside.{same_bytes_refl, same_bytes-eq, names, IsSafeKey, path_iff}
use restoreguard.Storage.Local.{
  Call, Local, Disk, Reply, ok, StoredInfo, info_of, put, put_upload, put_at, get_at, get, delete,
  delete_at, same_path, is_above, sized,
}
use restoreguard.Storage.Local.Laws.{Stores, put-Stores}
use restoreguard.Storage.S3
use restoreguard.Storage.S3.{Stat, Client}
use restoreguard.Storage.S3.Laws.{IsBucket, info_for, IsKept, put-IsKept}
use restoreguard.Storage.Objects.{
  Attempt, System, unreadable, Answer, putting, getting, deleting, refused, missing, deleted,
  stored, found, perform, run_requests,
}

abbrev all_well : Call → Bool
all_well c = false

abbrev local : Local
local = record {
  root = (100 ∷ []) ∷ [];
  max_bytes = 8;
  sha256_hex = λ bytes. length bytes ∷ [];
  fails = all_well;
  made = λ p. false;
  directory_size = λ p. 4096;
}

-- The key `a/b`, whose path is `/d/a/b`.
abbrev object_key : Bytes
object_key = 97 ∷ 47 ∷ 98 ∷ []

abbrev object_path : Segments
object_path = (100 ∷ []) ∷ (97 ∷ []) ∷ (98 ∷ []) ∷ []

abbrev object_content : Bytes
object_content = 1 ∷ 2 ∷ 3 ∷ []

abbrev empty_disk : Disk
empty_disk = record { files = λ p. none; directories = λ p. false; upload = false }

abbrev put_object : Reply StoredInfo × Disk
put_object = put local object_key object_content (pos 3) [] empty_disk

object_key-path : path local.root object_key ≡ some object_path
unfolding path
object_key-path = refl

path_iff_example :
    (path local.root object_key ≡ some object_path)
    ↔ (IsSafeKey object_key × (object_path ≡ local.root ++ names (split object_key)))
path_iff_example = path_iff local.root object_key object_path

put-Stores_example : Stores local object_key object_content [] (pos 3) empty_disk put_object
put-Stores_example = put-Stores local object_key object_content [] (pos 3) empty_disk (omega arith)

abbrev well : System
well = record { fails = all_well; made = λ p. false; directory_size = λ p. 4096 }

abbrev broken : System
broken = record well { fails = λ c. true }

-- A Put, a Get, a Get of the directory above, a Delete, a Get and a Put whose calls fail.
abbrev attempts : List Attempt
attempts =
    (well, putting object_key object_content (pos 3) [])
    ∷ (well, getting object_key)
    ∷ (well, getting (97 ∷ []))
    ∷ (well, deleting object_key)
    ∷ (well, getting object_key)
    ∷ (broken, putting object_key object_content (pos 3) [])
    ∷ []

abbrev served : List (Attempt × Answer) × Disk
served = run_requests local attempts empty_disk

answers-ok :
    map (λ (x : Attempt × Answer). x.1) served.0
    ≡ stored (info_of local object_key object_content [])
      ∷ found object_content (record { key = object_key; size = 3; sha256 = []; content_type = [] })
      ∷ unreadable (sized (97 ∷ []) 4096)
      ∷ deleted
      ∷ missing
      ∷ refused
      ∷ []
unfolding run_requests perform put put_at put_upload read_limited get get_at delete delete_at
    same_path is_above path
answers-ok = refl

-- A stand-in for the client: a bucket is the function that it keeps.
abbrev Bucket : Type 0
Bucket = Bytes → Option (Bytes × Bytes)

abbrev first_of : Option (Bytes × Bytes) → Option Bytes
first_of none = none
first_of (some (content, content_type)) = some content

abbrev stat_of : Option (Bytes × Bytes) → Option Stat
stat_of none = none
stat_of (some (content, content_type)) = some (length content, content_type)

abbrev client : Client Bucket
client = record {
  new_client = false;
  put_object = λ key content size content_type b. (
    some (record { size = length content; read = content }),
    λ k. if same_bytes key k then some (content, content_type) else b k,
  );
  get_object = λ key b. first_of (b key);
  stat_object = λ key b. stat_of (b key);
  remove_object = λ key b. (false, λ k. if same_bytes key k then none else b k);
  bucket_exists = λ b. some true;
  make_bucket = λ b. (false, b);
  sha256_hex = λ bytes. length bytes ∷ [];
}

client-IsBucket : IsBucket client (λ b. b)
client-IsBucket = record {
  written = λ key content content_type b u h. (
    cc h,
    if_true (same_bytes key key) _ _ (same_bytes_refl key),
    λ other n.
        if_cases (λ (o : Option (Bytes × Bytes)). o ≡ b other) (same_bytes key other)
          (λ e. absurd (n (sym (same_bytes-eq key other e)))) (λ _. refl),
  );
  opened_content = λ key content content_type opened b h k. cc (h, k);
  opened_stat = λ key content content_type b s h k. cc (h, k);
}

abbrev sent : Reply StoredInfo × Bucket
sent = S3.put client 8 object_key object_content (pos 3) [] (λ k. none)

sent-ok : sent ≡ (ok (info_for object_key object_content [] (3 ∷ [])), sent.1)
unfolding S3.put safe_key
sent-ok = refl

put-IsKept_example :
    IsKept client
      (λ b. b)
      client-IsBucket
      8
      object_key
      object_content
      []
      (info_for object_key object_content [] (3 ∷ []))
      (λ k. none)
      sent.1
put-IsKept_example =
    put-IsKept client (λ b. b) client-IsBucket 8 object_key object_content []
      (info_for object_key object_content [] (3 ∷ [])) (λ k. none) sent.1 sent-ok
