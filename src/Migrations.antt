-- ===== src/Migrations.antt =====
-- The migrations (backend/internal/database/migrate.go: Migrate). The database is a type of the
-- parameter's own; what it answers to a statement is a parameter, as are the files.
pub mod Again
pub mod Examples
use restoreguard.Common.{
  ℕ, ◌-◌, Bool, true, false, ◌&&◌, ◌||◌, not, Option, none, some, List, [], ◌∷◌, ltb, ◌==◌, length,
  take, if◌then◌else◌,
}
use restoreguard.Worker.World.{Bytes}
use restoreguard.Report.Text.{codes}
use restoreguard.Provider.{has_suffix}

pub record Entry : Type 0 where
  pub name : Bytes
  pub is_dir : Bool

-- None is an error.
pub record Directory : Type 0 where
  pub read_dir : Option (List Entry)
  pub read_file : Bytes → Option Bytes

-- True in a pair is an error.
pub record Database (B : Type 0) : Type 0 where
  pub create_ledger : B → Bool × B
  -- whether the version is in `schema_migrations`
  pub is_applied : Bytes → B → Option Bool
  pub exec : Bytes → B → Bool × B

-- The order of strings in Go.
unfoldable pub before : Bytes → Bytes → Bool
before [] ys = true
before (x ∷ xs) [] = false
before (x ∷ xs) (y ∷ ys) = let rest = before xs ys in ltb x y || x == y && rest

abbrev pub insert : Bytes → List Bytes → List Bytes
insert x [] = x ∷ []
insert x (y ∷ ys) = let rest = insert x ys in if before x y then x ∷ y ∷ ys else y ∷ rest

-- `sort.Strings`
unfoldable pub sorted : List Bytes → List Bytes
sorted [] = []
sorted (x ∷ xs) = insert x (sorted xs)

unfoldable pub file_names : List Entry → List Bytes
file_names [] = []
file_names (e ∷ es) =
    let rest = file_names es in
    if not e.is_dir && has_suffix (codes ".sql") e.name then e.name ∷ rest else rest

-- `strings.TrimSuffix(name, ".sql")`
abbrev pub version_of : Bytes → Bytes
version_of name = if has_suffix (codes ".sql") name then take (length name - 4) name else name

module _ {B : Type 0} (d : Directory) (db : Database B) where
  abbrev pub exec_file : Option Bytes → B → Bool × B
  exec_file none b = (true, b)
  exec_file (some sql) b = db.exec sql b

  -- One round of the loop.
  abbrev pub migrate_file : Bytes → Option Bool → B → Bool × B
  migrate_file name none b = (true, b)
  migrate_file name (some true) b = (false, b)
  migrate_file name (some false) b = exec_file (d.read_file name) b

  unfoldable pub migrate_files : List Bytes → B → Bool × B
  migrate_files [] b = (false, b)
  migrate_files (name ∷ names) b =
      let (failed, after) = migrate_file name (db.is_applied (version_of name) b) b in
      let rest = migrate_files names after in if failed then (true, after) else rest

  abbrev pub migrate_listed : Option (List Entry) → B → Bool × B
  migrate_listed none b = (true, b)
  migrate_listed (some es) b = migrate_files (sorted (file_names es)) b

  -- Whether an error is returned, and the database afterwards.
  unfoldable pub migrate : B → Bool × B
  unfolding migrate_files sorted file_names
  migrate b =
      let (failed, after) = db.create_ledger b in
      let rest = migrate_listed d.read_dir after in if failed then (true, after) else rest
