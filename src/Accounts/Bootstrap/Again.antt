-- ===== src/Accounts/Bootstrap/Again.antt =====
-- A second run of the bootstrap.
use restoreguard.Common.{
  ◌≡◌, refl, sym, ap, ◌∙◌, subst, ◌≢◌, Bool, true, false, ◌||◌, Option, none, some, List, [], ◌∷◌,
  map, String, str_eq, eq_refl, eq_iff, if_cases, if_ne, if_either, arith,
}
use restoreguard.Domain.Recovery.{Time}
use restoreguard.Accounts.{User}
use restoreguard.Accounts.Bootstrap.Upsert.{
  insert_once-again, upsert-found, upsert-again, upsert-held,
}
use restoreguard.Accounts.Bootstrap.{
  Organization, NamedRow, Installation, Answers, touch_if, is_demo, rename, put_demo_organization,
  has_address, set_address, put_demo_user, is_row_named, touch_row, put_demo_row, is_owner_row,
  is_link, is_policy_named, owner_row, new_link, demo_policy, demo_of, bootstrap_fails,
  bootstrap_hashed, bootstrap_demo,
}

-- A row without its `updated_at`.
abbrev pub unstamped : NamedRow → NamedRow
unstamped = touch_row 0

unstamped-touched :
    (matches : NamedRow → Bool) (now : Time) (rows : List NamedRow)
    → map unstamped (map (touch_if matches (touch_row now)) rows) ≡ map unstamped rows
unstamped-touched matches now [] = refl
unstamped-touched matches now (x ∷ xs) = λ i.
    if_either (λ (r : NamedRow). unstamped r ≡ unstamped x) (matches x) {x = touch_row now x}
      {y = x} refl refl i
    ∷ unstamped-touched matches now xs i

organization-again :
    (a b : Answers) (rows : List Organization)
    → put_demo_organization b (put_demo_organization a rows).1 ≡ put_demo_organization a rows
unfolding put_demo_organization
organization-again a b rows =
    upsert-again is_demo rename (λ o. o.id) (λ x h. h) (λ x. refl) (λ x. refl) _ _ rows refl refl

has_address-set :
    (organization email : String) (u : User)
    → has_address organization email u ≡ true
    → has_address organization email (set_address email u) ≡ true
has_address-set organization email u h = ground (arith, h, eq_refl email)

user-again :
    (a b : Answers) (organization email hash hash' : String) (rows : List User)
    → put_demo_user b organization email hash' (put_demo_user a organization email hash rows).1
      ≡ put_demo_user a organization email hash rows
unfolding put_demo_user
user-again a b organization email hash hash' rows =
    upsert-again (has_address organization email) (set_address email) (λ u. u.id)
      (has_address-set organization email) (λ x. refl) (λ x. refl) _ _ rows
      (ground (arith, eq_refl organization, eq_refl email)) refl

row-again :
    (now now' : Time) (id id' organization name kind : String) (rows : List NamedRow)
    → let first = put_demo_row now id organization name kind rows in
      let second = put_demo_row now' id' organization name kind first.1 in
      (second.0 ≡ first.0) × (map unstamped second.1 ≡ map unstamped first.1)
unfolding put_demo_row
row-again now now' id id' organization name kind rows =
    let matches = is_row_named organization name in
    let first = put_demo_row now id organization name kind rows in
    let (y, e, same) =
      upsert-found matches (touch_row now) (λ r. r.id) (λ x h. h) (λ x. refl) _ rows
        (ground (arith, eq_refl organization, eq_refl name)) in
    let held = upsert-held matches (touch_row now') (λ r. r.id) _ y first.1 e in
    (
      ap (λ r. r.0) held ∙ same,
      ap (λ r. map unstamped r.1) held ∙ unstamped-touched matches now' first.1,
    )

-- The tables without the column `updated_at` of assets and sources.
abbrev pub unstamped_tables : Installation → Installation
unstamped_tables d = record d { assets = map unstamped d.assets; sources = map unstamped d.sources }

demo_of-again :
    (a b : Answers) (email hash hash' : String) (d : Installation)
    → unstamped_tables (demo_of b email hash' (demo_of a email hash d))
      ≡ unstamped_tables (demo_of a email hash d)
unfolding demo_of
demo_of-again a b email hash hash' d =
    let (org, organizations) = put_demo_organization a d.organizations in
    let (user, users) = put_demo_user a org email hash d.users in
    let (asset, assets) =
      put_demo_row a.now a.asset_id org "Demo PostgreSQL ERP" "POSTGRESQL_DATABASE" d.assets in
    let (source, sources) =
      put_demo_row a.now a.source_id org "Demo PostgreSQL Dumps" "POSTGRES_DUMP" d.sources in
    let same_asset =
      row-again a.now b.now a.asset_id b.asset_id org "Demo PostgreSQL ERP" "POSTGRESQL_DATABASE"
        d.assets in
    let same_source =
      row-again a.now b.now a.source_id b.source_id org "Demo PostgreSQL Dumps" "POSTGRES_DUMP"
        d.sources in
    rw
      (
        organization-again a b d.organizations,
        user-again a b org email hash hash' d.users,
        same_asset.0,
        same_asset.1,
        same_source.0,
        same_source.1,
        insert_once-again (is_owner_row org user) (owner_row org user) (owner_row org user)
            d.role_rows (ground (arith, eq_refl org, eq_refl user)),
        insert_once-again (is_link asset source) (new_link org asset source)
            (new_link org asset source) d.links (ground (arith, eq_refl asset, eq_refl source)),
        insert_once-again (is_policy_named org "Demo ERP Weekly Recovery")
            (demo_policy a.policy_id org asset) (demo_policy b.policy_id org asset) d.policies
            (ground (arith, eq_refl org)),
      )
      refl

hashed-again :
    (b : Answers) (email : String) (hash : Option String) (d : Installation)
    → ((hash : String) → unstamped_tables (demo_of b email hash d) ≡ unstamped_tables d)
    → unstamped_tables (bootstrap_hashed b email hash d).1 ≡ unstamped_tables d
hashed-again b email none d h = refl
hashed-again b email (some hash) d h =
    if_either (λ (r : Bool × Installation). unstamped_tables r.1 ≡ unstamped_tables d)
      (bootstrap_fails b) refl (h hash)

hashed-made :
    (a : Answers) (email : String) (hash : Option String) (d e : Installation)
    → bootstrap_hashed a email hash d ≡ (false, e)
    → (hash : String) × (e ≡ demo_of a email hash d)
hashed-made a email none d e h = cc h
hashed-made a email (some hash) d e h =
    let (_, k) = if_ne (bootstrap_fails a) (λ n. cc n) h in (hash, cc k)

-- After a BootstrapDemo that succeeded, with an e-mail and a password, each later one for the same
-- e-mail leaves every table as it is but for the column `updated_at` of assets and sources, whatever
-- its password, its time, its answers and the identifiers that it would give: no second organization,
-- user, role, asset, source, link or policy is made, and the password stays.
pub bootstrap_demo-again :
    (a b : Answers) (email password password' : String) (d e : Installation)
    → email ≢ ""
    → password ≢ ""
    → bootstrap_demo a email password d ≡ (false, e)
    → unstamped_tables (bootstrap_demo b email password' e).1 ≡ unstamped_tables e
unfolding bootstrap_demo
bootstrap_demo-again a b email password password' d e named secret h =
    let first =
      if_cases
        (λ (r : Bool × Installation).
          r ≡ (false, e) → bootstrap_hashed a email (a.hash_password password) d ≡ (false, e))
        (str_eq email "" || str_eq password "") (λ n _. absurd (given n)) (λ _ k. k) h in
    let (hash, made) = hashed-made a email (a.hash_password password) d e first in
    if_either (λ (r : Bool × Installation). unstamped_tables r.1 ≡ unstamped_tables e)
      (str_eq email "" || str_eq password' "") refl
      (hashed-again b email (b.hash_password password') e (λ hash'.
        subst (λ x. unstamped_tables (demo_of b email hash' x) ≡ unstamped_tables x) (sym made)
          (demo_of-again a b email hash hash' d)))
  where
    given : (str_eq email "" || str_eq password "") ≡ true → ⊥
    given n = ground (arith, n, named, secret, eq_iff email "", eq_iff password "")
