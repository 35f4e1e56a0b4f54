-- ===== src/Api/Tenant.antt =====
-- The handlers of assets, sources and policies (backend/internal/httpapi/handlers.go).
use restoreguard.Common.{
  Bool, true, ◌&&◌, ◌||◌, not, Option, none, some, List, [], ◌∷◌, String, str_eq, if◌then◌else◌,
}
use restoreguard.Accounts.{Principal}
use restoreguard.Records.Pages.{list_rows}
use restoreguard.Records.Assets.{
  Asset, Source, Policy, database_error, Reply, error, ok, create_asset, get_asset, create_source,
  discover_source, create_policy,
}
use restoreguard.Api.Site.{
  pagination, Site, Body, an_asset, a_source, a_policy, Answers, Content, status_text, assets_shown,
  sources_shown, policies_shown, Response, Handler, reply, bad_input, db_failure, write_audit,
  is_get,
}

-- What a list query gives the reply.
abbrev pub list_reply : {A : Type 0} → (List A → Content) → Option (List A) → Response
list_reply shown none = db_failure database_error
list_reply shown (some rows) = reply 200 (shown rows)

unfoldable pub list_assets : Handler
unfolding list_rows db_failure
list_assets a p i s = (
  list_reply assets_shown (
      list_rows a.query_fails (λ (r : Asset). r.organization_id) (λ (r : Asset). r.created_at)
        (λ (r : Asset). str_eq i.search "" || a.name_matches i.search r.name) p.organization_id
        (pagination i).0 (pagination i).1 s.tables.assets),
  s,
)

abbrev pub is_kind : String → Bool
is_kind kind =
    str_eq kind "POSTGRESQL_DATABASE"
    || str_eq kind "FILESYSTEM"
    || str_eq kind "APPLICATION_DATASET"

abbrev pub is_criticality : String → Bool
is_criticality c = str_eq c "LOW" || str_eq c "MEDIUM" || str_eq c "HIGH" || str_eq c "CRITICAL"

abbrev pub set_assets : List Asset → Site → Site
set_assets rows s = record s { tables = record s.tables { assets = rows } }

abbrev pub asset_reply : Answers → Principal → Reply Asset × List Asset → Site → Response × Site
asset_reply a p (error e, rows) s = (db_failure e, set_assets rows s)
asset_reply a p (ok item, rows) s = (
  reply 201 (assets_shown (item ∷ [])),
  write_audit a p "protected_asset.created" item.id (set_assets rows s),
)

unfoldable pub make_asset : Answers → Principal → Option Body → Site → Response × Site
unfolding create_asset db_failure
make_asset a p (some (an_asset item)) s =
    if not (a.valid_name item.name) || not (is_kind item.kind && is_criticality item.criticality)
    then (bad_input, s)
    else asset_reply a p (create_asset a.generated p.organization_id item s.tables.assets) s
make_asset a p _ s = (bad_input, s)

unfoldable pub assets : Handler
unfolding list_assets make_asset
assets a p i s = if is_get i.method then list_assets a p i s else make_asset a p i.body s

abbrev pub one_reply : {A : Type 0} → (List A → Content) → Reply A → Response
one_reply shown (error e) = db_failure e
one_reply shown (ok item) = reply 200 (shown (item ∷ []))

unfoldable pub asset : Handler
unfolding get_asset db_failure
asset a p i s =
    (one_reply assets_shown (get_asset a.query_fails p.organization_id i.id s.tables.assets), s)

unfoldable pub list_sources : Handler
unfolding list_rows db_failure
list_sources a p i s = (
  list_reply sources_shown (
      list_rows a.query_fails (λ (r : Source). r.organization_id) (λ (r : Source). r.created_at)
        (λ (r : Source). true) p.organization_id (pagination i).0 (pagination i).1
        s.tables.sources),
  s,
)

abbrev pub is_source_kind : String → Bool
is_source_kind kind =
    str_eq kind "LOCAL_FILESYSTEM" || str_eq kind "S3_COMPATIBLE" || str_eq kind "POSTGRES_DUMP"

abbrev pub set_sources : List Source → Site → Site
set_sources rows s = record s { tables = record s.tables { sources = rows } }

abbrev pub source_reply : Answers → Principal → Reply Source × List Source → Site → Response × Site
source_reply a p (error e, rows) s = (db_failure e, set_sources rows s)
source_reply a p (ok item, rows) s = (
  reply 201 (sources_shown (item ∷ [])),
  write_audit a p "backup_source.created" item.id (set_sources rows s),
)

unfoldable pub make_source : Answers → Principal → Option Body → Site → Response × Site
unfolding create_source db_failure
make_source a p (some (a_source item)) s =
    if not (a.valid_name item.name) || not (is_source_kind item.kind)
    then (bad_input, s)
    else source_reply a p (create_source a.generated p.organization_id item s.tables.sources) s
make_source a p _ s = (bad_input, s)

unfoldable pub sources : Handler
unfolding list_sources make_source
sources a p i s = if is_get i.method then list_sources a p i s else make_source a p i.body s

abbrev pub discover_reply :
    Answers → Principal → String → Reply (Unit {0}) × List Source → Site → Response × Site
discover_reply a p id (error e, rows) s = (db_failure e, set_sources rows s)
discover_reply a p id (ok x, rows) s = (
  reply 202 (status_text "SUCCEEDED"),
  write_audit a p "backup_source.discovery_completed" id (set_sources rows s),
)

unfoldable pub discover : Handler
unfolding discover_source db_failure
discover a p i s =
    discover_reply a p i.id (discover_source a.query_fails p.organization_id i.id s.tables.sources)
      s

unfoldable pub list_policies : Handler
unfolding list_rows db_failure
list_policies a p i s = (
  list_reply policies_shown (
      list_rows a.query_fails (λ (r : Policy). r.organization_id) (λ (r : Policy). r.created_at)
        (λ (r : Policy). true) p.organization_id (pagination i).0 (pagination i).1
        s.tables.policies),
  s,
)

abbrev pub is_schedule : String → Bool
is_schedule t = str_eq t "DAILY" || str_eq t "WEEKLY" || str_eq t "MONTHLY"

abbrev pub set_policies : List Policy → Site → Site
set_policies rows s = record s { tables = record s.tables { policies = rows } }

abbrev pub policy_reply : Answers → Principal → Reply Policy × List Policy → Site → Response × Site
policy_reply a p (error e, rows) s = (bad_input, set_policies rows s)
policy_reply a p (ok item, rows) s = (
  reply 201 (policies_shown (item ∷ [])),
  write_audit a p "policy.created" item.id (set_policies rows s),
)

unfoldable pub make_policy : Answers → Principal → Option Body → Site → Response × Site
unfolding create_policy
make_policy a p (some (a_policy item)) s =
    if not (a.valid_name item.name) || not (is_schedule item.schedule)
    then (bad_input, s)
    else policy_reply a p
        (create_policy a.generated p.organization_id item s.tables.assets s.tables.policies) s
make_policy a p _ s = (bad_input, s)

unfoldable pub policies : Handler
unfolding list_policies make_policy
policies a p i s = if is_get i.method then list_policies a p i s else make_policy a p i.body s
