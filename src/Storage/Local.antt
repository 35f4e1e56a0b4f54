-- ===== src/Storage/Local.antt =====
-- The object storage on the local disk (backend/internal/storage/local.go, object.go): Put, Get,
-- Delete and Health over the files and directories below the root. What the operating system answers
-- is a parameter.
pub mod Laws
use restoreguard.Common.{
  ℕ, zero, suc, Bool, true, false, ◌&&◌, ◌||◌, ◌⊎◌, inl, inr, ◌==◌, not, Option, none, some, List,
  [], ◌∷◌, ltb, length, if◌then◌else◌,
}
use restoreguard.Common.Int.{ℤ, pos, ltb_ℤ, negsuc}
use restoreguard.Worker.World.{Bytes}
use restoreguard.Worker.Backup.{read_limited}
use restoreguard.Storage.Keys.{Segments, same_bytes, path}

pub record StoredInfo : Type 0 where
  pub key : Bytes
  pub size : ℕ
  pub sha256 : Bytes
  pub content_type : Bytes

pub data StorageError : Type 0 where
  too_large unsafe_key length_mismatch not_exist system_error : StorageError

pub data Reply {ℓ} (A : Type ℓ) : Type ℓ where
  error : StorageError → Reply A
  ok : A → Reply A

-- The calls of the operating system. They may fail for any reason, such as a file where a directory is
-- wanted, or a directory at the path of a new file.
pub data Call : Type 0 where
  make_directory create_upload copy_upload close_upload rename_upload remove_upload : Call
  open_file stat_file remove_file create_health remove_health : Call

pub record Local : Type 0 where
  pub root : Segments
  -- an int64, which NewLocal wants to be positive
  pub max_bytes : ℕ
  pub sha256_hex : Bytes → Bytes
  pub fails : Call → Bool
  -- the directories that a MkdirAll which fails has made before
  pub made : Segments → Bool
  -- the size that Stat gives of a directory
  pub directory_size : Segments → ℕ

-- The files and directories below the root, and whether the temporary file of an upload or of Health
-- is there.
pub record Disk : Type 0 where
  pub files : Segments → Option Bytes
  pub directories : Segments → Bool
  pub upload : Bool

-- What Get opens: Open succeeds on a directory too, of which nothing can be read.
pub data Opened : Type 0 where
  whole_file : Bytes → Opened
  directory : Opened

pub data MakeError : Type 0 where
  not_positive no_directory : MakeError

-- `NewLocal`, where the root is absolute already.
unfoldable new_local : ℤ → Local → MakeError ⊎ Local
new_local (pos zero) l = inl not_positive
new_local (pos (suc n)) l =
    if l.fails make_directory then inl no_directory else inr (record l { max_bytes = suc n })
new_local (negsuc n) l = inl not_positive

unfoldable pub same_path : Segments → Segments → Bool
unfolding same_bytes
same_path [] [] = true
same_path [] (y ∷ ys) = false
same_path (x ∷ xs) [] = false
same_path (x ∷ xs) (y ∷ ys) = same_bytes x y && same_path xs ys

abbrev pub assign : Segments → Option Bytes → (Segments → Option Bytes) → Segments → Option Bytes
assign p content files q = if same_path p q then content else files q

-- The first path is that of a directory above the second.
unfoldable pub is_above : Segments → Segments → Bool
unfolding same_bytes
is_above [] [] = false
is_above [] (y ∷ ys) = true
is_above (x ∷ xs) [] = false
is_above (x ∷ xs) (y ∷ ys) = same_bytes x y && is_above xs ys

-- `os.MkdirAll(filepath.Dir(path), 0700)`, and what is left of it when it fails.
abbrev pub make_directories : Segments → Disk → Disk
make_directories p d = record d { directories = λ q. is_above q p || d.directories q }

abbrev pub make_some : Local → Segments → Disk → Disk
make_some l p d = record d { directories = λ q. l.made q && is_above q p || d.directories q }

abbrev pub exceeds : ℤ → ℕ → Bool
exceeds size max_bytes = ltb_ℤ size (pos 0) || ltb_ℤ (pos max_bytes) size

abbrev pub is_size : ℤ → ℕ → Bool
is_size (pos n) written = n == written
is_size (negsuc n) written = false

-- The deferred removal of the temporary file.
abbrev discard : Local → Disk → Disk
discard l d = record d { upload = l.fails remove_upload }

abbrev pub uploaded : Local → Bytes → Bytes
uploaded l content = read_limited l.max_bytes content

abbrev pub info_of : Local → Bytes → Bytes → Bytes → StoredInfo
info_of l key body content_type = record {
  key = key;
  size = length body;
  sha256 = l.sha256_hex body;
  content_type = content_type;
}

-- From the creation of the temporary file on.
unfoldable pub put_upload :
    Local → Bytes → Bytes → ℤ → Bytes → Segments → Disk → Reply StoredInfo × Disk
put_upload l key content size content_type p d =
    if l.fails copy_upload || l.fails close_upload
    then (error system_error, discard l d)
    else if ltb l.max_bytes (length (uploaded l content))
        || not (is_size size (length (uploaded l content)))
    then (error length_mismatch, discard l d)
    else if l.fails rename_upload
    then (error system_error, discard l d)
    else (
      ok (info_of l key (uploaded l content) content_type),
      record d { files = assign p (some (uploaded l content)) d.files },
    )

unfoldable pub put_at :
    Local → Bytes → Bytes → ℤ → Bytes → Option Segments → Disk → Reply StoredInfo × Disk
unfolding put_upload
put_at l key content size content_type none d = (error unsafe_key, d)
put_at l key content size content_type (some p) d =
    if l.fails make_directory
    then (error system_error, make_some l p d)
    else if l.fails create_upload
    then (error system_error, make_directories p d)
    else put_upload l key content size content_type p (make_directories p d)

-- `content` is what the reader gives.
unfoldable pub put : Local → Bytes → Bytes → ℤ → Bytes → Disk → Reply StoredInfo × Disk
unfolding put_at path
put l key content size content_type d =
    if exceeds size l.max_bytes
    then (error too_large, d)
    else put_at l key content size content_type (path l.root key) d

abbrev pub sized : Bytes → ℕ → StoredInfo
sized key size = record { key = key; size = size; sha256 = []; content_type = [] }

-- `os.Open` and `file.Stat` on what is there, a file or a directory.
abbrev pub opened : Local → Bytes → Segments → Option Bytes → Bool → Reply (Opened × StoredInfo)
opened l key p none is_directory =
    if not is_directory
    then error not_exist
    else if l.fails open_file || l.fails stat_file
    then error system_error
    else ok (directory, sized key (l.directory_size p))
opened l key p (some content) is_directory =
    if l.fails open_file || l.fails stat_file
    then error system_error
    else ok (whole_file content, sized key (length content))

unfoldable pub get_at : Local → Bytes → Option Segments → Disk → Reply (Opened × StoredInfo)
get_at l key none d = error unsafe_key
get_at l key (some p) d = opened l key p (d.files p) (d.directories p)

-- What is opened, and the size; Get does not give a hash.
unfoldable pub get : Local → Bytes → Disk → Reply (Opened × StoredInfo)
unfolding get_at path
get l key d = get_at l key (path l.root key) d

-- `remove_file` fails where Remove gives an error other than that the file does not exist, as it does
-- for a directory that is not empty; an empty one is removed.
unfoldable pub delete_at : Local → Option Segments → Disk → Reply (Unit {0}) × Disk
delete_at l none d = (error unsafe_key, d)
delete_at l (some p) d = if l.fails remove_file then (error system_error, d) else (
  ok tt,
  record d {
    files = assign p none d.files;
    directories = λ q. not (same_path p q) && d.directories q;
  },
)

-- Removing a file that does not exist is no error.
unfoldable pub delete : Local → Bytes → Disk → Reply (Unit {0}) × Disk
unfolding delete_at path
delete l key d = delete_at l (path l.root key) d

unfoldable pub health : Local → Disk → Reply (Unit {0}) × Disk
health l d =
    if l.fails create_health
    then (error system_error, d)
    else if l.fails remove_health
    then (error system_error, record d { upload = true })
    else (ok tt, d)
