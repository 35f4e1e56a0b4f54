-- ===== src/Api/Isolation/Rows.antt =====
-- The handlers of assets, sources and policies, for another organization.
use restoreguard.Common.{
  ◌≡◌, refl, ◌≢◌, true, ◌&&◌, ◌||◌, not, Option, none, some, List, String, str_eq, if_either,
}
use restoreguard.Accounts.{Principal}
use restoreguard.Records.Assets.{
  Asset, Source, Policy, Reply, error, ok, database_error, create_asset, get_asset, create_source,
  discover_source, create_policy,
}
use restoreguard.Api.Site.{
  pagination, Site, Body, an_asset, a_source, a_policy, Input, Answers, Content, assets_shown,
  sources_shown, policies_shown, is_get,
}
use restoreguard.Api.Tenants.{
  rows_of, HidesReply, SparesAssets, SparesSources, SparesPolicies, create_asset-Spares,
  create_source-Spares, create_policy-Spares, get_asset-Hides, discover_source-rows,
  list_rows-Foreign,
}
use restoreguard.Api.Tenant.{
  list_reply, one_reply, list_assets, make_asset, asset_reply, is_kind, is_criticality, set_assets,
  source_reply, is_source_kind, set_sources, discover_reply, policy_reply, is_schedule,
  set_policies, assets, asset, list_sources, make_source, sources, discover, list_policies,
  make_policy, policies,
}
use restoreguard.Api.Isolation.{
  Hides, Spares, kept, with_assets, with_sources, with_policies, db_failure-Hides, audited,
}

module _ (o : String) (a : Answers) (p : Principal) (n : p.organization_id ≢ o) where
  asset_reply-Spares :
      (r : Reply Asset × List Asset) (s : Site)
      → SparesAssets o s.tables.assets r
      → Spares o s (asset_reply a p r s)
  asset_reply-Spares (error e, rows) s (_, same) = (db_failure-Hides o e, with_assets o s rows same)
  asset_reply-Spares (ok item, rows) s (h, same) = (
    (h, tt),
    audited o a p n "protected_asset.created" item.id s (set_assets rows s)
        (with_assets o s rows same),
  )

  make_asset-Spares : (b : Option Body) (s : Site) → Spares o s (make_asset a p b s)
  unfolding make_asset
  make_asset-Spares none s = (tt, kept o s)
  make_asset-Spares (some (an_asset item)) s =
      if_either (Spares o s)
        (not (a.valid_name item.name) || not (is_kind item.kind && is_criticality item.criticality))
        (tt, kept o s)
        (asset_reply-Spares (create_asset a.generated p.organization_id item s.tables.assets) s
          (create_asset-Spares o p.organization_id n a.generated item s.tables.assets))
  make_asset-Spares (some _) s = (tt, kept o s)

  source_reply-Spares :
      (r : Reply Source × List Source) (s : Site)
      → SparesSources o s.tables.sources r
      → Spares o s (source_reply a p r s)
  source_reply-Spares (error e, rows) s (_, same) =
      (db_failure-Hides o e, with_sources o s rows same)
  source_reply-Spares (ok item, rows) s (h, same) = (
    (h, tt),
    audited o a p n "backup_source.created" item.id s (set_sources rows s)
        (with_sources o s rows same),
  )

  make_source-Spares : (b : Option Body) (s : Site) → Spares o s (make_source a p b s)
  unfolding make_source
  make_source-Spares none s = (tt, kept o s)
  make_source-Spares (some (a_source item)) s =
      if_either (Spares o s) (not (a.valid_name item.name) || not (is_source_kind item.kind))
        (tt, kept o s)
        (source_reply-Spares (create_source a.generated p.organization_id item s.tables.sources) s
          (create_source-Spares o p.organization_id n a.generated item s.tables.sources))
  make_source-Spares (some _) s = (tt, kept o s)

  policy_reply-Spares :
      (r : Reply Policy × List Policy) (s : Site)
      → SparesPolicies o s.tables.policies r
      → Spares o s (policy_reply a p r s)
  policy_reply-Spares (error e, rows) s (_, same) = (tt, with_policies o s rows same)
  policy_reply-Spares (ok item, rows) s (h, same) = (
    (h, tt),
    audited o a p n "policy.created" item.id s (set_policies rows s) (with_policies o s rows same),
  )

  make_policy-Spares : (b : Option Body) (s : Site) → Spares o s (make_policy a p b s)
  unfolding make_policy
  make_policy-Spares none s = (tt, kept o s)
  make_policy-Spares (some (a_policy item)) s =
      if_either (Spares o s) (not (a.valid_name item.name) || not (is_schedule item.schedule))
        (tt, kept o s)
        (policy_reply-Spares
          (create_policy a.generated p.organization_id item s.tables.assets s.tables.policies) s
          (create_policy-Spares o p.organization_id n a.generated item s.tables.assets
            s.tables.policies))
  make_policy-Spares (some _) s = (tt, kept o s)

  -- A list that is shown.
  pub list_reply-Spares :
      {A : Type 0} (shown : List A → Content) (found : Option (List A)) (s : Site)
      → ((rows : List A) → found ≡ some rows → Hides o (shown rows))
      → Spares o s (list_reply shown found, s)
  list_reply-Spares shown none s h = (db_failure-Hides o database_error, kept o s)
  list_reply-Spares shown (some rows) s h = (h rows refl, kept o s)

  pub assets-Spares : (i : Input) (s : Site) → Spares o s (assets a p i s)
  unfolding assets list_assets
  assets-Spares i s =
      if_either (Spares o s) (is_get i.method)
        (list_reply-Spares assets_shown _ s (λ rows h.
          list_rows-Foreign o p.organization_id n a.query_fails (λ (r : Asset). r.organization_id)
            (λ (r : Asset). r.created_at)
            (λ (r : Asset). str_eq i.search "" || a.name_matches i.search r.name) (pagination i).0
            (pagination i).1 s.tables.assets rows h))
        (make_asset-Spares i.body s)

  pub sources-Spares : (i : Input) (s : Site) → Spares o s (sources a p i s)
  unfolding sources list_sources
  sources-Spares i s =
      if_either (Spares o s) (is_get i.method)
        (list_reply-Spares sources_shown _ s (λ rows h.
          list_rows-Foreign o p.organization_id n a.query_fails (λ (r : Source). r.organization_id)
            (λ (r : Source). r.created_at) (λ (r : Source). true) (pagination i).0 (pagination i).1
            s.tables.sources rows h))
        (make_source-Spares i.body s)

  pub policies-Spares : (i : Input) (s : Site) → Spares o s (policies a p i s)
  unfolding policies list_policies
  policies-Spares i s =
      if_either (Spares o s) (is_get i.method)
        (list_reply-Spares policies_shown _ s (λ rows h.
          list_rows-Foreign o p.organization_id n a.query_fails (λ (r : Policy). r.organization_id)
            (λ (r : Policy). r.created_at) (λ (r : Policy). true) (pagination i).0 (pagination i).1
            s.tables.policies rows h))
        (make_policy-Spares i.body s)

  one_asset-Spares :
      (r : Reply Asset) (s : Site)
      → HidesReply o (λ (r : Asset). r.organization_id) r
      → Spares o s (one_reply assets_shown r, s)
  one_asset-Spares (error e) s h = (db_failure-Hides o e, kept o s)
  one_asset-Spares (ok item) s h = ((h, tt), kept o s)

  pub asset-Spares : (i : Input) (s : Site) → Spares o s (asset a p i s)
  unfolding asset
  asset-Spares i s =
      one_asset-Spares (get_asset a.query_fails p.organization_id i.id s.tables.assets) s
        (get_asset-Hides o p.organization_id n a.query_fails i.id s.tables.assets)

  discover_reply-Spares :
      (id : String) (r : Reply (Unit {0}) × List Source) (s : Site)
      → rows_of o (λ (r : Source). r.organization_id) r.1
        ≡ rows_of o (λ (r : Source). r.organization_id) s.tables.sources
      → Spares o s (discover_reply a p id r s)
  discover_reply-Spares id (error e, rows) s same =
      (db_failure-Hides o e, with_sources o s rows same)
  discover_reply-Spares id (ok x, rows) s same = (
    tt,
    audited o a p n "backup_source.discovery_completed" id s (set_sources rows s)
        (with_sources o s rows same),
  )

  pub discover-Spares : (i : Input) (s : Site) → Spares o s (discover a p i s)
  unfolding discover
  discover-Spares i s =
      discover_reply-Spares i.id
        (discover_source a.query_fails p.organization_id i.id s.tables.sources) s
        (discover_source-rows o p.organization_id n a.query_fails i.id s.tables.sources)
