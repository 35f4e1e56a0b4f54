-- ===== src/Migrations/Examples.antt =====
-- The theorem on the migrations, with one file that records its version.
use restoreguard.Common.{◌≡◌, refl, Bool, true, false, ◌||◌, some, List, [], ◌∷◌, any, subst}
use restoreguard.Worker.World.{Bytes}
use restoreguard.Report.Text.{codes}
use restoreguard.Storage.Keys.{same_bytes}
use restoreguard.Storage.Keys.Inside.{same_bytes_refl}
use restoreguard.Migrations.{
  Directory, Database, sorted, file_names, version_of, migrate_files, migrate,
}
use restoreguard.Migrations.Again.{IsLedger, migrate-again}

-- The text of a migration is its version here, and a database the versions that it recorded.
abbrev directory : Directory
directory = record {
  read_dir = some (
      record { name = codes "001_initial.sql"; is_dir = false }
      ∷ record { name = codes "notes"; is_dir = true }
      ∷ []);
  read_file = λ name. some (version_of name);
}

abbrev database : Database (List Bytes)
database = record {
  create_ledger = λ b. (false, b);
  is_applied = λ version b. some (any (same_bytes version) b);
  exec = λ sql b. (false, sql ∷ b);
}

later_any : (x y : Bool) → some y ≡ some true → some (x || y) ≡ some true
later_any true y h = refl
later_any false y h = h

added_any :
    (version sql : Bytes) (b after : List Bytes)
    → some (any (same_bytes version) (sql ∷ b)) ≡ some true
    → ◌≡◌ {A = Bool × List Bytes} (false, sql ∷ b) (false, after)
    → some (any (same_bytes version) after) ≡ some true
added_any version sql b after h e =
    subst (λ (x : Bool × List Bytes). some (any (same_bytes version) x.1) ≡ some true) e h

ledger : IsLedger directory database
ledger = record {
  recorded = λ name sql b after r h.
      added_any (version_of name) sql b after (own (version_of name) sql b (cc r)) h;
  remembered = λ version name sql b after r h e.
      added_any version sql b after
        (later_any (same_bytes version sql) (any (same_bytes version) b) h) e;
  created = λ b after h. refl;
  stays = λ name sql b after r c h. refl;
}
  where
    own :
        (version sql : Bytes) (b : List Bytes)
        → version ≡ sql
        → some (any (same_bytes version) (sql ∷ b)) ≡ some true
    own version sql b e =
        subst (λ s. some (any (same_bytes version) (s ∷ b)) ≡ some true) e
          (rw (same_bytes_refl version) refl)

migrated : migrate directory database [] ≡ (false, codes "001_initial" ∷ [])
unfolding migrate migrate_files sorted file_names same_bytes
migrated = refl

migrate-again_example :
    migrate directory database (codes "001_initial" ∷ []) ≡ (false, codes "001_initial" ∷ [])
migrate-again_example =
    migrate-again directory database ledger [] (codes "001_initial" ∷ []) migrated
