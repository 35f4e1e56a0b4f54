-- ===== src/Provider.antt =====
-- The backup provider for a local directory (backend/internal/drill/local_provider.go: resolve,
-- Discover, GetSnapshot, OpenBackup, ValidateMetadata; provider.go). What the operating system
-- answers is a parameter.
pub mod Snapshots
pub mod Examples
use restoreguard.Common.{
  ℕ, zero, suc, ◌-◌, Bool, true, false, ◌&&◌, ◌||◌, not, Option, none, some, List, [], ◌∷◌, ◌++◌,
  ltb, leb, ◌==◌, length, drop, if◌then◌else◌,
}
use restoreguard.Common.Int.{ℤ, pos, negsuc, leb_ℤ, ltb_ℤ}
use restoreguard.Domain.Recovery.{Time}
use restoreguard.Worker.World.{Bytes}
use restoreguard.Worker.Backup.{read_limited}
use restoreguard.Report.Text.{codes}
use restoreguard.Storage.Keys.{Segments, has_dots, has_backslash, starts_dot, join, rel, same_bytes}

pub record FileInfo : Type 0 where
  pub size : ℕ
  pub modified_at : Time

pub record DirEntry : Type 0 where
  pub name : Bytes
  pub is_dir : Bool
  -- none where Info reports an error
  pub info : Option FileInfo

pub record DiscoveredSnapshot : Type 0 where
  pub external_id : Bytes
  pub name : Bytes
  pub kind : Bytes
  pub completed_at : Time
  pub size_bytes : ℕ
  pub checksum : Bytes

pub record Provider : Type 0 where
  pub root : Segments
  -- an int64, which NewLocalProvider wants to be positive
  pub max_bytes : ℕ

-- The answers of the operating system; none is an error.
pub record Files : Type 0 where
  pub read_dir : Option (List DirEntry)
  -- the context is done when the entry of this number is met
  pub done : ℕ → Bool
  pub stat : Segments → Option FileInfo
  pub open_file : Segments → Option Bytes
  pub copy_fails : Bool
  pub done_after : Bool
  pub sha256_hex : Bytes → Bytes

-- `NewLocalProvider`, where the root is absolute already.
unfoldable new_local_provider : Segments → ℤ → Option Provider
new_local_provider root (pos zero) = none
new_local_provider root (pos (suc n)) = some (record { root = root; max_bytes = suc n })
new_local_provider root (negsuc n) = none

abbrev pub is_empty : Bytes → Bool
is_empty [] = true
is_empty (c ∷ cs) = false

unfoldable pub has_slash : Bytes → Bool
has_slash [] = false
has_slash (c ∷ cs) = c == b'/' || has_slash cs

abbrev pub starts_up : Bytes → Bool
starts_up [] = false
starts_up (c ∷ cs) = c == b'.' && starts_dot cs

-- `strings.HasPrefix(rel, "..")`
abbrev pub climbs : Segments → Bool
climbs [] = false
climbs (s ∷ ss) = starts_up s

unfoldable pub resolve : Segments → Bytes → Option Segments
unfolding has_dots has_slash has_backslash join rel
resolve root id =
    if is_empty id || has_dots id || (has_slash id || has_backslash id)
    then none
    else if climbs (rel root (join root id))
    then none
    else some (join root id)

-- `strings.HasSuffix`
abbrev pub has_suffix : Bytes → Bytes → Bool
has_suffix suffix name =
    leb (length suffix) (length name) && same_bytes (drop (length name - length suffix) name) suffix

unfoldable pub is_dump_name : Bytes → Bool
unfolding same_bytes
is_dump_name name =
    has_suffix (codes ".sql") name
    || (has_suffix (codes ".dump") name || has_suffix (codes ".backup") name)

abbrev dump_kind : Bytes
dump_kind = codes "POSTGRES_DUMP"

abbrev pub snapshot_of : Bytes → FileInfo → DiscoveredSnapshot
snapshot_of name info = record {
  external_id = name;
  name = name;
  kind = dump_kind;
  completed_at = info.modified_at;
  size_bytes = info.size;
  checksum = [];
}

-- What one entry that is no directory adds.
abbrev pub listed : ℕ → Bytes → Option FileInfo → List DiscoveredSnapshot
listed max_bytes name none = []
listed max_bytes name (some info) =
    if ltb max_bytes info.size
    then []
    else if not (is_dump_name name)
    then []
    else snapshot_of name info ∷ []

abbrev pub seen : ℕ → DirEntry → List DiscoveredSnapshot
seen max_bytes e = if e.is_dir then [] else listed max_bytes e.name e.info

-- The loop over the entries.
unfoldable pub collect :
    Files → ℕ → ℕ → List DirEntry → List DiscoveredSnapshot → Option (List DiscoveredSnapshot)
unfolding is_dump_name
collect f max_bytes i [] result = some result
collect f max_bytes i (e ∷ es) result =
    let rest = collect f max_bytes (suc i) es (result ++ seen max_bytes e) in
    if f.done i then none else rest

abbrev pub collect_all : Files → ℕ → Option (List DirEntry) → Option (List DiscoveredSnapshot)
collect_all f max_bytes none = none
collect_all f max_bytes (some es) = collect f max_bytes 0 es []

unfoldable pub discover : Provider → Files → Option (List DiscoveredSnapshot)
unfolding collect
discover p f = collect_all f p.max_bytes f.read_dir

abbrev pub hashed : Files → ℕ → Bytes → FileInfo → Option Bytes → Option DiscoveredSnapshot
hashed f max_bytes id info none = none
hashed f max_bytes id info (some content) =
    if f.copy_fails
    then none
    else if f.done_after
    then none
    else some
        (record (snapshot_of id info) { checksum = f.sha256_hex (read_limited max_bytes content) })

abbrev pub opened : Files → ℕ → Bytes → Segments → Option FileInfo → Option DiscoveredSnapshot
opened f max_bytes id path none = none
opened f max_bytes id path (some info) = hashed f max_bytes id info (f.open_file path)

abbrev pub resolved : Files → ℕ → Bytes → Option Segments → Option DiscoveredSnapshot
resolved f max_bytes id none = none
resolved f max_bytes id (some path) = opened f max_bytes id path (f.stat path)

-- None where the error is not nil.
unfoldable pub get_snapshot : Provider → Files → Bytes → Option DiscoveredSnapshot
unfolding resolve read_limited
get_snapshot p f id = resolved f p.max_bytes id (resolve p.root id)

abbrev open_resolved : Files → Option Segments → Option Bytes
open_resolved f none = none
open_resolved f (some path) = f.open_file path

unfoldable open_backup : Provider → Files → Bytes → Option Bytes
unfolding resolve
open_backup p f id = open_resolved f (resolve p.root id)

-- The result tells whether the metadata are accepted.
unfoldable validate_metadata : Provider → ℤ → Bytes → Bool
unfolding same_bytes
validate_metadata p size format =
    if leb_ℤ size (pos 0) || ltb_ℤ (pos p.max_bytes) size
    then false
    else same_bytes format (codes "plain") || same_bytes format (codes "custom")
