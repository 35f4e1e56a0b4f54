-- ===== src/Api/Effects.antt =====
-- Which table a handler of assets, sources or policies changes.
pub mod Views
pub mod Runs
use restoreguard.Common.{
  ◌≡◌, refl, ◌∙◌, Bool, true, false, ◌&&◌, ◌||◌, not, Option, none, some, List, ◌∷◌, map, String,
  str_eq, any, if◌then◌else◌, if_either,
}
use restoreguard.Accounts
use restoreguard.Accounts.{Accounts, change_password, Principal, authenticate}
use restoreguard.Records.Assets.{
  Asset, Source, Policy, Reply, error, ok, is_asset, create_asset, create_source, create_policy,
  discover_source,
}
use restoreguard.Domain.Recovery.{Time}
use restoreguard.Pool
use restoreguard.Pool.{WorkerPool, submit}
use restoreguard.Records.Drills.{
  DrillRow, DrillItem, DrillRequest, Calls, Tables, has_key, new_row, is_cancellable, cancel_row,
  get_drill, create_drill, create_keyed, cancel_listed,
}
use restoreguard.Api.Site.{
  Site, Body, an_asset, a_source, a_policy, a_drill, credentials, passwords, Input, Answers,
  Response, is_get, write_audit,
}
use restoreguard.Api.Sessions.{
  login, login_reply, session_lifetime, revoke_session, password_reply, password_with, logout,
  password,
}
use restoreguard.Api.Tenant.{
  list_assets, make_asset, asset_reply, is_kind, is_criticality, set_assets, source_reply,
  is_source_kind, set_sources, discover_reply, policy_reply, is_schedule, set_policies, assets,
  list_sources, make_source, sources, discover, list_policies, make_policy, policies,
}
use restoreguard.Api.Views.{overview, snapshots, evidence, audit, simple_rows}
use restoreguard.Api.Runs.{
  show_drills, make_drill, drills, cancel, events, stream, drill_reply, submit_reply, set_tables,
  drill_request, cancel_reply,
}

-- One table is replaced.
abbrev pub SetsAssets : Site → Response × Site → Type 0
SetsAssets s r = (rows : List Asset) × (r.1.tables ≡ record s.tables { assets = rows })

abbrev pub SetsSources : Site → Response × Site → Type 0
SetsSources s r = (rows : List Source) × (r.1.tables ≡ record s.tables { sources = rows })

abbrev pub SetsPolicies : Site → Response × Site → Type 0
SetsPolicies s r = (rows : List Policy) × (r.1.tables ≡ record s.tables { policies = rows })

abbrev pub SetsDrills : Site → Response × Site → Type 0
SetsDrills s r = (rows : List DrillRow) × (r.1.tables ≡ record s.tables { drills = rows })

pub write_audit-tables :
    (a : Answers) (p : Principal) (event resource : String) (s : Site)
    → (write_audit a p event resource s).tables ≡ s.tables
write_audit-tables a p event resource s =
    if_either (λ (t : Site). t.tables ≡ s.tables) a.audit_fails refl refl

asset_reply-Sets :
    (a : Answers) (p : Principal) (r : Reply Asset × List Asset) (s : Site)
    → SetsAssets s (asset_reply a p r s)
asset_reply-Sets a p (error e, rows) s = (rows, refl)
asset_reply-Sets a p (ok item, rows) s =
    (rows, write_audit-tables a p "protected_asset.created" item.id (set_assets rows s))

make_asset-Sets :
    (a : Answers) (p : Principal) (b : Option Body) (s : Site) → SetsAssets s (make_asset a p b s)
unfolding make_asset
make_asset-Sets a p none s = (s.tables.assets, refl)
make_asset-Sets a p (some (an_asset item)) s =
    if_either (SetsAssets s)
      (not (a.valid_name item.name) || not (is_kind item.kind && is_criticality item.criticality))
      (s.tables.assets, refl)
      (asset_reply-Sets a p (create_asset a.generated p.organization_id item s.tables.assets) s)
make_asset-Sets a p (some _) s = (s.tables.assets, refl)

source_reply-Sets :
    (a : Answers) (p : Principal) (r : Reply Source × List Source) (s : Site)
    → SetsSources s (source_reply a p r s)
source_reply-Sets a p (error e, rows) s = (rows, refl)
source_reply-Sets a p (ok item, rows) s =
    (rows, write_audit-tables a p "backup_source.created" item.id (set_sources rows s))

make_source-Sets :
    (a : Answers) (p : Principal) (b : Option Body) (s : Site) → SetsSources s (make_source a p b s)
unfolding make_source
make_source-Sets a p none s = (s.tables.sources, refl)
make_source-Sets a p (some (a_source item)) s =
    if_either (SetsSources s) (not (a.valid_name item.name) || not (is_source_kind item.kind))
      (s.tables.sources, refl)
      (source_reply-Sets a p (create_source a.generated p.organization_id item s.tables.sources) s)
make_source-Sets a p (some _) s = (s.tables.sources, refl)

discover_reply-Sets :
    (a : Answers) (p : Principal) (id : String) (r : Reply (Unit {0}) × List Source) (s : Site)
    → SetsSources s (discover_reply a p id r s)
discover_reply-Sets a p id (error e, rows) s = (rows, refl)
discover_reply-Sets a p id (ok x, rows) s =
    (rows, write_audit-tables a p "backup_source.discovery_completed" id (set_sources rows s))

policy_reply-Sets :
    (a : Answers) (p : Principal) (r : Reply Policy × List Policy) (s : Site)
    → SetsPolicies s (policy_reply a p r s)
policy_reply-Sets a p (error e, rows) s = (rows, refl)
policy_reply-Sets a p (ok item, rows) s =
    (rows, write_audit-tables a p "policy.created" item.id (set_policies rows s))

make_policy-Sets :
    (a : Answers) (p : Principal) (b : Option Body) (s : Site)
    → SetsPolicies s (make_policy a p b s)
unfolding make_policy
make_policy-Sets a p none s = (s.tables.policies, refl)
make_policy-Sets a p (some (a_policy item)) s =
    if_either (SetsPolicies s) (not (a.valid_name item.name) || not (is_schedule item.schedule))
      (s.tables.policies, refl)
      (policy_reply-Sets a p
        (create_policy a.generated p.organization_id item s.tables.assets s.tables.policies) s)
make_policy-Sets a p (some _) s = (s.tables.policies, refl)

pub assets-Sets :
    (a : Answers) (p : Principal) (i : Input) (s : Site) → SetsAssets s (assets a p i s)
unfolding assets list_assets
assets-Sets a p i s =
    if_either (SetsAssets s) (is_get i.method) (s.tables.assets, refl)
      (make_asset-Sets a p i.body s)

pub sources-Sets :
    (a : Answers) (p : Principal) (i : Input) (s : Site) → SetsSources s (sources a p i s)
unfolding sources list_sources
sources-Sets a p i s =
    if_either (SetsSources s) (is_get i.method) (s.tables.sources, refl)
      (make_source-Sets a p i.body s)

pub policies-Sets :
    (a : Answers) (p : Principal) (i : Input) (s : Site) → SetsPolicies s (policies a p i s)
unfolding policies list_policies
policies-Sets a p i s =
    if_either (SetsPolicies s) (is_get i.method) (s.tables.policies, refl)
      (make_policy-Sets a p i.body s)

pub discover-Sets :
    (a : Answers) (p : Principal) (i : Input) (s : Site) → SetsSources s (discover a p i s)
unfolding discover
discover-Sets a p i s =
    discover_reply-Sets a p i.id
      (discover_source a.query_fails p.organization_id i.id s.tables.sources) s
