-- ===== src/Records/Assets.antt =====
-- Protected assets, backup sources and recovery policies (backend/internal/database/resources.go:
-- CreateAsset, GetAsset, CreateSource, DiscoverSource, CreatePolicy). A name is unique in its
-- organization for assets and for sources.
use restoreguard.Common.{
  ℕ, Bool, true, ◌&&◌, ◌||◌, not, Option, none, some, List, ◌∷◌, map, String, str_eq, any, find,
  if◌then◌else◌,
}
use restoreguard.Common.Int.{ℤ, pos, leb_ℤ, ltb_ℤ}
use restoreguard.Domain.Recovery.{Time}

pub data QueryError : Type 0 where
  no_rows database_error invalid_target : QueryError

pub data Reply {ℓ} (A : Type ℓ) : Type ℓ where
  error : QueryError → Reply A
  ok : A → Reply A

pub record Asset : Type 0 where
  pub id : String
  pub organization_id : String
  pub name : String
  pub kind : String
  pub environment : String
  pub criticality : String
  pub owner_name : String
  pub team : String
  pub description : String
  pub enabled : Bool
  pub created_at : Time

pub record Source : Type 0 where
  pub id : String
  pub organization_id : String
  pub name : String
  pub kind : String
  pub environment : String
  pub description : String
  pub enabled : Bool
  pub last_discovery_status : Option String
  pub created_at : Time

pub record Policy : Type 0 where
  pub id : String
  pub organization_id : String
  pub name : String
  pub protected_asset_id : String
  pub rpo_target_seconds : ℤ
  pub rto_target_seconds : ℤ
  pub schedule : String
  pub enabled : Bool
  pub created_at : Time

-- What the database answers to one call: whether the statement fails, and what it generates.
pub record Generated : Type 0 where
  pub fails : Bool
  pub id : String
  pub now : Time

abbrev pub is_asset_named : String → String → Asset → Bool
is_asset_named organization name a = str_eq a.organization_id organization && str_eq a.name name

unfoldable pub create_asset : Generated → String → Asset → List Asset → Reply Asset × List Asset
create_asset g organization item rows =
    if g.fails || any (is_asset_named organization item.name) rows
    then (error database_error, rows)
    else (let row : Asset = record item {
      id = g.id;
      organization_id = organization;
      enabled = true;
      created_at = g.now;
    } in
        (ok row, row ∷ rows))

abbrev pub is_asset : String → String → Asset → Bool
is_asset organization id a = str_eq a.organization_id organization && str_eq a.id id

abbrev pub of_found {ℓ} : {A : Type ℓ} → Option A → Reply A
of_found none = error no_rows
of_found (some a) = ok a

unfoldable pub get_asset : Bool → String → String → List Asset → Reply Asset
get_asset fails organization id rows =
    if fails then error database_error else of_found (find (is_asset organization id) rows)

abbrev pub is_source_named : String → String → Source → Bool
is_source_named organization name s = str_eq s.organization_id organization && str_eq s.name name

unfoldable pub create_source :
    Generated → String → Source → List Source → Reply Source × List Source
create_source g organization item rows =
    if g.fails || any (is_source_named organization item.name) rows
    then (error database_error, rows)
    else (let row : Source = record item {
      id = g.id;
      organization_id = organization;
      enabled = true;
      created_at = g.now;
    } in
        (ok row, row ∷ rows))

abbrev pub is_source : String → String → Source → Bool
is_source organization id s = str_eq s.organization_id organization && str_eq s.id id

abbrev pub discover_row : String → String → Source → Source
discover_row organization id s =
    if is_source organization id s then record s { last_discovery_status = some "SUCCEEDED" } else s

unfoldable pub discover_source :
    Bool → String → String → List Source → Reply (Unit {0}) × List Source
discover_source fails organization id rows =
    if fails
    then (error database_error, rows)
    else if not (any (is_source organization id) rows)
    then (error no_rows, rows)
    else (ok tt, map (discover_row organization id) rows)

abbrev pub bad_target : ℤ → ℕ → Bool
bad_target target bound = leb_ℤ target (pos 0) || ltb_ℤ (pos bound) target

-- The policy's asset is selected in its organization; without it no row is inserted.
unfoldable pub create_policy :
    Generated → String → Policy → List Asset → List Policy → Reply Policy × List Policy
create_policy g organization item assets rows =
    if bad_target item.rpo_target_seconds 31536000 || bad_target item.rto_target_seconds 604800
    then (error invalid_target, rows)
    else if g.fails
    then (error database_error, rows)
    else if not (any (is_asset organization item.protected_asset_id) assets)
    then (error no_rows, rows)
    else (let row : Policy = record item {
      id = g.id;
      organization_id = organization;
      enabled = true;
      created_at = g.now;
    } in
        (ok row, row ∷ rows))
