-- ===== src/Migrations/Again.antt =====
-- A second run of the migrations.
use restoreguard.Common.{
  ◌≡◌, refl, subst, Bool, true, false, Option, none, some, List, [], ◌∷◌, if_ne, All,
}
use restoreguard.Worker.World.{Bytes}
use restoreguard.Migrations.{
  Entry, Directory, Database, sorted, file_names, version_of, exec_file, migrate_file,
  migrate_files, migrate_listed, migrate,
}

-- Each file of the directory that runs without an error records its own version, as the one of
-- migrations/ does, and neither takes a version from the ledger nor the ledger away; creating the
-- ledger again does nothing. Of a text that is no file of the directory nothing is asked.
pub record IsLedger {B : Type 0} (d : Directory) (db : Database B) : Type 0 where
  pub recorded :
      (name sql : Bytes) (b after : B)
      → d.read_file name ≡ some sql
      → db.exec sql b ≡ (false, after)
      → db.is_applied (version_of name) after ≡ some true
  pub remembered :
      (version name sql : Bytes) (b after : B)
      → d.read_file name ≡ some sql
      → db.is_applied version b ≡ some true
      → db.exec sql b ≡ (false, after)
      → db.is_applied version after ≡ some true
  pub created :
      (b after : B) → db.create_ledger b ≡ (false, after) → db.create_ledger after ≡ (false, after)
  pub stays :
      (name sql : Bytes) (b after : B)
      → d.read_file name ≡ some sql
      → db.create_ledger b ≡ (false, b)
      → db.exec sql b ≡ (false, after)
      → db.create_ledger after ≡ (false, after)

module _ {B : Type 0} (d : Directory) (db : Database B) (ledger : IsLedger d db) where
  abbrev Applied : B → Bytes → Type 0
  Applied b name = db.is_applied (version_of name) b ≡ some true

  -- What was applied and the ledger stay.
  abbrev Stays : B → B → Type 0
  Stays b after =
      ((name : Bytes) → Applied b name → Applied after name)
      × (db.create_ledger b ≡ (false, b) → db.create_ledger after ≡ (false, after))

  file-Applied :
      (name : Bytes) (o : Option Bool) (b after : B)
      → db.is_applied (version_of name) b ≡ o
      → migrate_file d db name o b ≡ (false, after)
      → Applied after name × Stays b after
  file-Applied name none b after e h = cc h
  file-Applied name (some true) b after e h =
      let same : b ≡ after = cc h in
      subst (λ x. Applied x name × Stays b x) same (e, ((λ n k. k), λ k. k))
  file-Applied name (some false) b after e h = read (d.read_file name) refl h
    where
      read :
          (o : Option Bytes)
          → d.read_file name ≡ o
          → exec_file d db o b ≡ (false, after)
          → Applied after name × Stays b after
      read none r k = cc k
      read (some sql) r k = (
        ledger.recorded name sql b after r k,
        (
          (λ n a. ledger.remembered (version_of n) name sql b after r a k),
          λ c. ledger.stays name sql b after r c k,
        ),
      )

  files-Applied :
      (names : List Bytes) (b after : B)
      → migrate_files d db names b ≡ (false, after)
      → All (Applied after) names × Stays b after
  unfolding migrate_files
  files-Applied [] b after h =
      let same : b ≡ after = cc h in
      subst (λ x. Unit {0} × Stays b x) same (tt, ((λ n k. k), λ k. k))
  files-Applied (name ∷ names) b after h =
      let (went, rest) =
        if_ne (migrate_file d db name (db.is_applied (version_of name) b) b).0 (λ e. cc e) h in
      let middle = (migrate_file d db name (db.is_applied (version_of name) b) b).1 in
      let (first, (kept, ledger_kept)) =
        file-Applied name (db.is_applied (version_of name) b) b middle refl
          (λ i. (went i, middle)) in
      let (others, (later, ledger_later)) = files-Applied names middle after rest in
      ((later name first, others), ((λ n a. later n (kept n a)), λ c. ledger_later (ledger_kept c)))

  files-skipped :
      (names : List Bytes) (b : B) → All (Applied b) names → migrate_files d db names b ≡ (false, b)
  unfolding migrate_files
  files-skipped [] b h = refl
  files-skipped (name ∷ names) b (h, hs) = rw h (files-skipped names b hs)

  listed-again :
      (o : Option (List Entry)) (b after : B)
      → db.create_ledger b ≡ (false, b)
      → migrate_listed d db o b ≡ (false, after)
      → (db.create_ledger after ≡ (false, after)) × (migrate_listed d db o after ≡ (false, after))
  unfolding sorted file_names migrate_files
  listed-again none b after c h = cc h
  listed-again (some es) b after c h =
      let (applied, (_, stays)) = files-Applied (sorted (file_names es)) b after h in
      (stays c, files-skipped (sorted (file_names es)) after applied)

  -- Where each file of the directory records its own version and none of them removes the ledger or
  -- one of its versions: after a Migrate that succeeded, another one with the same files succeeds and leaves the database as it is, so that no
  -- file is run twice.
  pub migrate-again :
      (b after : B) → migrate d db b ≡ (false, after) → migrate d db after ≡ (false, after)
  unfolding migrate
  migrate-again b after h =
      let (went, rest) = if_ne (db.create_ledger b).0 (λ e. cc e) h in
      let middle = (db.create_ledger b).1 in
      let made = ledger.created b middle (λ i. (went i, middle)) in
      let (ledger_stays, again) = listed-again d.read_dir middle after made rest in
      rw ledger_stays again
