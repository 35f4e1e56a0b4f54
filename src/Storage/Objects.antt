-- ===== src/Storage/Objects.antt =====
-- The object storage as its clients see it (backend/internal/storage/object.go: ObjectStorage): a
-- sequence of requests and answers, here served by the local disk.
pub mod Contents
pub mod Places
pub mod Refinement
use restoreguard.Storage.Keys.{Segments}
use restoreguard.Common.{ℕ, Bool, ◌≡◌, Option, none, some, List, [], ◌∷◌, refl}
use restoreguard.Common.Int.{ℤ}
use restoreguard.Worker.World.{Bytes}
use restoreguard.Storage.Local.{
  StoredInfo, StorageError, too_large, unsafe_key, length_mismatch, not_exist, system_error, Reply,
  error, ok, Opened, whole_file, directory, Call, Local, Disk, put, get, delete, health,
}

pub data Request : Type 0 where
  -- the key, what the reader gives, the stated size and the type of the content
  putting : Bytes → Bytes → ℤ → Bytes → Request
  getting deleting : Bytes → Request
  checking : Request

pub data Answer : Type 0 where
  refused missing deleted healthy : Answer
  stored : StoredInfo → Answer
  found : Bytes → StoredInfo → Answer
  -- of a directory, which Get opens and of which nothing can be read
  unreadable : StoredInfo → Answer

abbrev pub put_answer : Reply StoredInfo → Answer
put_answer (error e) = refused
put_answer (ok info) = stored info

abbrev pub get_answer : Reply (Opened × StoredInfo) → Answer
get_answer (error too_large) = refused
get_answer (error unsafe_key) = refused
get_answer (error length_mismatch) = refused
get_answer (error not_exist) = missing
get_answer (error system_error) = refused
get_answer (ok (whole_file content, info)) = found content info
get_answer (ok (directory, info)) = unreadable info

abbrev pub done_answer : Answer → Reply (Unit {0}) → Answer
done_answer a (error e) = refused
done_answer a (ok u) = a

unfoldable pub perform : Local → Request → Disk → Answer × Disk
unfolding put get delete health
perform l (putting key content size content_type) d =
    let (r, e) = put l key content size content_type d in (put_answer r, e)
perform l (getting key) d = (get_answer (get l key d), d)
perform l (deleting key) d = let (r, e) = delete l key d in (done_answer deleted r, e)
perform l checking d = let (r, e) = health l d in (done_answer healthy r, e)

-- What the operating system answers while a request is served.
pub record System : Type 0 where
  pub fails : Call → Bool
  pub made : Segments → Bool
  pub directory_size : Segments → ℕ

abbrev pub Attempt : Type 0
Attempt = System × Request

abbrev pub on_system : Local → System → Local
on_system l s = record l { fails = s.fails; made = s.made; directory_size = s.directory_size }

-- The attempts with their answers, and the disk at the end.
unfoldable pub run_requests : Local → List Attempt → Disk → List (Attempt × Answer) × Disk
unfolding perform
run_requests l [] d = ([], d)
run_requests l ((s, r) ∷ rs) d =
    let (a, e) = perform (on_system l s) r d in
    let (trace, last) = run_requests l rs e in (((s, r), a) ∷ trace, last)
