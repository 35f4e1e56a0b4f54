-- ===== src/Accounts/Bootstrap.antt =====
-- The demonstration data of an installation (backend/internal/database/store.go: BootstrapDemo). Of
-- the columns that the transaction writes, those that hold a fixed text and no name are left out.
pub mod Upsert
pub mod Again
use restoreguard.Common.{
  ℕ, Bool, true, false, ◌&&◌, ◌||◌, not, Option, none, some, List, [], ◌∷◌, map, String, str_eq,
  any, find, if◌then◌else◌,
}
use restoreguard.Domain.Recovery.{Time}
use restoreguard.Accounts.{User, RoleRow}

pub record Organization : Type 0 where
  pub id : String
  pub name : String
  pub slug : String

-- A row of `protected_assets` or of `backup_sources`.
pub record NamedRow : Type 0 where
  pub id : String
  pub organization_id : String
  pub name : String
  pub kind : String
  pub updated_at : Time

pub record Link : Type 0 where
  pub organization_id : String
  pub asset_id : String
  pub source_id : String

pub record PolicyRow : Type 0 where
  pub id : String
  pub organization_id : String
  pub name : String
  pub asset_id : String
  pub rpo_target_seconds : ℕ
  pub rto_target_seconds : ℕ

pub record Installation : Type 0 where
  pub organizations : List Organization
  pub users : List User
  pub role_rows : List RoleRow
  pub assets : List NamedRow
  pub sources : List NamedRow
  pub links : List Link
  pub policies : List PolicyRow

pub data Call : Type 0 where
  begin_bootstrap put_organization put_user put_role put_asset put_source put_link : Call
  put_policy commit_bootstrap : Call

-- What the database and the hash answer to one run, with the identifiers of new rows.
pub record Answers : Type 0 where
  pub fails : Call → Bool
  pub hash_password : String → Option String
  pub organization_id : String
  pub user_id : String
  pub asset_id : String
  pub source_id : String
  pub policy_id : String
  -- `now()`, which is one time for the whole transaction
  pub now : Time

-- `INSERT ... ON CONFLICT DO UPDATE ... RETURNING id`
module _ {A : Type 0} where
  abbrev pub touch_if : (A → Bool) → (A → A) → A → A
  touch_if matches touch x = if matches x then touch x else x

  abbrev pub upsert_found :
      (A → Bool) → (A → A) → (A → String) → A → Option A → List A → String × List A
  upsert_found matches touch id new none rows = (id new, new ∷ rows)
  upsert_found matches touch id new (some x) rows = (id x, map (touch_if matches touch) rows)

  unfoldable pub upsert : (A → Bool) → (A → A) → (A → String) → A → List A → String × List A
  upsert matches touch id new rows = upsert_found matches touch id new (find matches rows) rows

  -- `ON CONFLICT DO NOTHING`, and `WHERE NOT EXISTS`
  unfoldable pub insert_once : (A → Bool) → A → List A → List A
  insert_once matches new rows = if any matches rows then rows else new ∷ rows

abbrev pub is_demo : Organization → Bool
is_demo o = str_eq o.slug "restoreguard-demo"

abbrev pub rename : Organization → Organization
rename o = record o { name = "RestoreGuard Demo" }

unfoldable pub put_demo_organization : Answers → List Organization → String × List Organization
unfolding upsert
put_demo_organization a rows =
    upsert is_demo rename (λ o. o.id)
      (record { id = a.organization_id; name = "RestoreGuard Demo"; slug = "restoreguard-demo" })
      rows

abbrev pub has_address : String → String → User → Bool
has_address organization email u = str_eq u.organization_id organization && str_eq u.email email

abbrev pub set_address : String → User → User
set_address email u = record u { email = email }

unfoldable pub put_demo_user : Answers → String → String → String → List User → String × List User
unfolding upsert
put_demo_user a organization email hash rows =
    upsert (has_address organization email) (set_address email) (λ u. u.id)
      (record {
        id = a.user_id;
        organization_id = organization;
        email = email;
        display_name = "Demo Owner";
        password_hash = hash;
        active = true;
      })
      rows

abbrev pub is_row_named : String → String → NamedRow → Bool
is_row_named organization name r = str_eq r.organization_id organization && str_eq r.name name

-- `SET updated_at=now()`
abbrev pub touch_row : Time → NamedRow → NamedRow
touch_row now r = record r { updated_at = now }

unfoldable pub put_demo_row :
    Time → String → String → String → String → List NamedRow → String × List NamedRow
unfolding upsert
put_demo_row now id organization name kind rows =
    upsert (is_row_named organization name) (touch_row now) (λ r. r.id)
      (record {
        id = id;
        organization_id = organization;
        name = name;
        kind = kind;
        updated_at = now;
      })
      rows

abbrev pub is_owner_row : String → String → RoleRow → Bool
is_owner_row organization user r =
    str_eq r.organization_id organization && str_eq r.user_id user && str_eq r.role "OWNER"

abbrev pub is_link : String → String → Link → Bool
is_link asset source l = str_eq l.asset_id asset && str_eq l.source_id source

abbrev pub is_policy_named : String → String → PolicyRow → Bool
is_policy_named organization name r = str_eq r.organization_id organization && str_eq r.name name

abbrev pub owner_row : String → String → RoleRow
owner_row organization user = record {
  user_id = user;
  organization_id = organization;
  role = "OWNER";
}

abbrev pub new_link : String → String → String → Link
new_link organization asset source = record {
  organization_id = organization;
  asset_id = asset;
  source_id = source;
}

abbrev pub demo_policy : String → String → String → PolicyRow
demo_policy id organization asset = record {
  id = id;
  organization_id = organization;
  name = "Demo ERP Weekly Recovery";
  asset_id = asset;
  rpo_target_seconds = 86400;
  rto_target_seconds = 1800;
}

-- The statements of the transaction.
unfoldable pub demo_of : Answers → String → String → Installation → Installation
demo_of a email hash d =
    let (org, organizations) = put_demo_organization a d.organizations in
    let (user, users) = put_demo_user a org email hash d.users in
    let (asset, assets) =
      put_demo_row a.now a.asset_id org "Demo PostgreSQL ERP" "POSTGRESQL_DATABASE" d.assets in
    let (source, sources) =
      put_demo_row a.now a.source_id org "Demo PostgreSQL Dumps" "POSTGRES_DUMP" d.sources in
    record {
      organizations = organizations;
      users = users;
      role_rows = insert_once (is_owner_row org user) (owner_row org user) d.role_rows;
      assets = assets;
      sources = sources;
      links = insert_once (is_link asset source) (new_link org asset source) d.links;
      policies =
          insert_once (is_policy_named org "Demo ERP Weekly Recovery")
            (demo_policy a.policy_id org asset) d.policies;
    }

abbrev pub bootstrap_fails : Answers → Bool
bootstrap_fails a =
    a.fails begin_bootstrap
    || a.fails put_organization
    || a.fails put_user
    || a.fails put_role
    || a.fails put_asset
    || a.fails put_source
    || a.fails put_link
    || a.fails put_policy
    || a.fails commit_bootstrap

abbrev pub bootstrap_hashed : Answers → String → Option String → Installation → Bool × Installation
bootstrap_hashed a email none d = (true, d)
bootstrap_hashed a email (some hash) d =
    if bootstrap_fails a then (true, d) else (false, demo_of a email hash d)

-- Whether an error is returned, and the tables after the transaction.
unfoldable pub bootstrap_demo : Answers → String → String → Installation → Bool × Installation
unfolding demo_of
bootstrap_demo a email password d =
    if str_eq email "" || str_eq password ""
    then (false, d)
    else bootstrap_hashed a email (a.hash_password password) d
