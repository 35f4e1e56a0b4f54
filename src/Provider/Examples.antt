-- ===== src/Provider/Examples.antt =====
-- The theorems on the provider at a directory with one dump.
use restoreguard.Common.{◌≡◌, refl, false, some, List, [], ◌∷◌, All, arith, ap}
use restoreguard.Report.Text.{codes}
use restoreguard.Worker.World.{Bytes}
use restoreguard.Storage.Keys.{same_bytes, has_dots, has_backslash}
use restoreguard.Provider.{
  FileInfo, DirEntry, Provider, Files, has_slash, snapshot_of, discover, collect, is_dump_name,
}
use restoreguard.Provider.Snapshots.{IsPlain, IsReadable, IsFound, discover-get}

abbrev root : List Bytes
root = codes "var" ∷ codes "dumps" ∷ []

abbrev provider : Provider
provider = record { root = root; max_bytes = 1000 }

abbrev dump : FileInfo
dump = record { size = 3; modified_at = 500 }

abbrev entry : DirEntry
entry = record { name = codes "erp.sql"; is_dir = false; info = some dump }

abbrev files : Files
files = record {
  read_dir = some (entry ∷ []);
  done = λ i. false;
  stat = λ path. some dump;
  open_file = λ path. some (1 ∷ 2 ∷ 3 ∷ []);
  copy_fails = false;
  done_after = false;
  sha256_hex = λ content. content;
}

plain : IsPlain (codes "erp.sql")
unfolding has_dots has_slash has_backslash
plain = record { present = λ e. cc e; dotless = refl; slashless = refl; backslashless = refl }

size-ok : (info : FileInfo) → some dump ≡ some info → 3 ≡ info.size
size-ok info h = ap FileInfo.size (some-injective h)
  where
    some-injective : {x y : FileInfo} → some x ≡ some y → x ≡ y
    some-injective k = cc k

entry-IsReadable : IsReadable provider files entry
entry-IsReadable = record {
  plain = plain;
  proper = refl;
  same = refl;
  content = 1 ∷ 2 ∷ 3 ∷ [];
  readable = refl;
  size = size-ok;
}

discover-ok : discover provider files ≡ some (snapshot_of (codes "erp.sql") dump ∷ [])
unfolding discover collect is_dump_name same_bytes
discover-ok = refl

discover-get_example : All (IsFound provider files) (snapshot_of (codes "erp.sql") dump ∷ [])
discover-get_example =
    discover-get provider files (omega arith) refl refl (entry ∷ [])
      (snapshot_of (codes "erp.sql") dump ∷ []) refl ((λ h. entry-IsReadable), tt) discover-ok
