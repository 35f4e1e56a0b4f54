-- ===== src/Api/Authority/Parts.antt =====
-- The tables that a handler of backend/internal/httpapi may change, one for each permission.
use restoreguard.Common.{◌≡◌, refl, sym, ap, subst, ◌⊎◌, inl, inr, String}
use restoreguard.Records.Drills.{Tables}
use restoreguard.Api.Site.{Site, Response}
use restoreguard.Api.Effects.{SetsAssets, SetsSources, SetsPolicies, SetsDrills}

pub data Part : Type 0 where
  asset_rows source_rows policy_rows drill_rows : Part

-- The permission that a change of a table asks for.
abbrev pub permission_of : Part → String
permission_of asset_rows = "settings.manage"
permission_of source_rows = "backup_source.manage"
permission_of policy_rows = "recovery_policy.manage"
permission_of drill_rows = "drill.run"

abbrev pub IsSame : Part → Tables → Tables → Type 0
IsSame asset_rows t u = t.assets ≡ u.assets
IsSame source_rows t u = t.sources ≡ u.sources
IsSame policy_rows t u = t.policies ≡ u.policies
IsSame drill_rows t u = t.drills ≡ u.drills

-- The permission of the list of a table.
abbrev pub read_permission_of : Part → String
read_permission_of asset_rows = "drill.read"
read_permission_of source_rows = "backup_source.read"
read_permission_of policy_rows = "recovery_policy.read"
read_permission_of drill_rows = "drill.read"

pub IsSame-refl : (part : Part) (t : Tables) → IsSame part t t
IsSame-refl asset_rows t = refl
IsSame-refl source_rows t = refl
IsSame-refl policy_rows t = refl
IsSame-refl drill_rows t = refl

pub IsSame-tables : {t u : Tables} (part : Part) → t ≡ u → IsSame part t u
IsSame-tables {t} {u} part e = subst (λ x. IsSame part x u) (sym e) (IsSame-refl part u)

-- Of the tables, only one may differ.
abbrev pub Only : Part → Site → Response × Site → Type 0
Only q s r = (part : Part) → IsSame part r.1.tables s.tables ⊎ (part ≡ q)

pub assets-Only : (s : Site) (r : Response × Site) → SetsAssets s r → Only asset_rows s r
assets-Only s r (rows, e) asset_rows = inr refl
assets-Only s r (rows, e) source_rows = inl (ap (λ (t : Tables). t.sources) e)
assets-Only s r (rows, e) policy_rows = inl (ap (λ (t : Tables). t.policies) e)
assets-Only s r (rows, e) drill_rows = inl (ap (λ (t : Tables). t.drills) e)

pub sources-Only : (s : Site) (r : Response × Site) → SetsSources s r → Only source_rows s r
sources-Only s r (rows, e) asset_rows = inl (ap (λ (t : Tables). t.assets) e)
sources-Only s r (rows, e) source_rows = inr refl
sources-Only s r (rows, e) policy_rows = inl (ap (λ (t : Tables). t.policies) e)
sources-Only s r (rows, e) drill_rows = inl (ap (λ (t : Tables). t.drills) e)

pub policies-Only : (s : Site) (r : Response × Site) → SetsPolicies s r → Only policy_rows s r
policies-Only s r (rows, e) asset_rows = inl (ap (λ (t : Tables). t.assets) e)
policies-Only s r (rows, e) source_rows = inl (ap (λ (t : Tables). t.sources) e)
policies-Only s r (rows, e) policy_rows = inr refl
policies-Only s r (rows, e) drill_rows = inl (ap (λ (t : Tables). t.drills) e)

pub drills-Only : (s : Site) (r : Response × Site) → SetsDrills s r → Only drill_rows s r
drills-Only s r (rows, e) asset_rows = inl (ap (λ (t : Tables). t.assets) e)
drills-Only s r (rows, e) source_rows = inl (ap (λ (t : Tables). t.sources) e)
drills-Only s r (rows, e) policy_rows = inl (ap (λ (t : Tables). t.policies) e)
drills-Only s r (rows, e) drill_rows = inr refl
