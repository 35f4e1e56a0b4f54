-- ===== src/Api/Authority.antt =====
-- Who changes the tables through the routes of backend/internal/httpapi/server.go.
pub mod Parts
pub mod Actions
pub mod Head
use restoreguard.Common.{
  ◌≡◌, refl, sym, ap, subst, ◌⊎◌, inl, inr, Bool, true, false, ◌&&◌, Option, none, some, ◌++◌,
  String, eq_iff, find, if_either, if_true, All, All-append, find-All, arith, Bool-cases,
}
use restoreguard.Accounts.{Principal}
use restoreguard.Access.Guard.{
  Visitor, served, Outcome, require, unauthenticated, invalid_session, forbidden, csrf_invalid,
  origin_invalid,
}
use restoreguard.Access.Privilege.{MayPass, require_iff}
use restoreguard.Records.Drills.{Tables}
use restoreguard.Api.Site.{Site, Input, Answers, Response, Handler, is_get}
use restoreguard.Api.Sessions.{logout, session, password, roles, users, settings, ready}
use restoreguard.Api.Tenant.{
  list_assets, assets, asset, list_sources, sources, discover, list_policies, policies,
}
use restoreguard.Api.Views.{overview, snapshots, evidence, audit}
use restoreguard.Api.Runs.{show_drills, drills, drill, cancel, events, report}
use restoreguard.Api.Effects.{
  SetsAssets, SetsSources, SetsPolicies, SetsDrills, assets-Sets, sources-Sets, policies-Sets,
  discover-Sets,
}
use restoreguard.Api.Effects.Runs.{drills-Sets, cancel-Sets}
use restoreguard.Api.Effects.Views.{
  overview-tables, evidence-tables, audit-tables, snapshots-tables, events-tables, logout-tables,
  password-tables, login-tables, view-tables,
}
use restoreguard.Api.Routes.{
  account_routes, tenant_routes, drill_routes, view_routes, Route, Action, guarded, route_table,
  server_of, request_of, admit, act, dispatch, serve, route_matches, path_value, path_matches,
  method_matches, is_preflight,
}
use restoreguard.Api.Authority.Parts.{
  Part, asset_rows, source_rows, policy_rows, drill_rows, permission_of, IsSame, read_permission_of,
  IsSame-refl, IsSame-tables, Only, assets-Only, sources-Only, policies-Only, drills-Only,
}
use restoreguard.Api.Authority.Actions.{
  MayChange, Rightful, IsCareful, IsCarefulRoute, viewer-IsCareful, writer-IsCareful,
  reader-IsCareful,
}

-- Each route.
account_routes-Careful : All IsCarefulRoute account_routes
unfolding account_routes act ready session
account_routes-Careful = (
  λ a i s m part. inl (IsSame-refl part s.tables),
  (
    λ a i s m part. inl (IsSame-tables part (view-tables _ _ a.health_fails s)),
    (
      λ a i s m part. inl (IsSame-tables part (login-tables a i i.body s)),
      (
        viewer-IsCareful "" logout "POST" logout-tables,
        (
          viewer-IsCareful "" session "GET" (λ a p i s. refl),
          (viewer-IsCareful "" password "POST" password-tables, tt),
        ),
      ),
    ),
  ),
)

assets-tables :
    (a : Answers) (p : Principal) (i : Input) (s : Site)
    → is_get i.method ≡ true
    → (assets a p i s).1.tables ≡ s.tables
unfolding assets list_assets
assets-tables a p i s g = ap (λ (r : Response × Site). r.1.tables) (if_true _ _ _ g)

sources-tables :
    (a : Answers) (p : Principal) (i : Input) (s : Site)
    → is_get i.method ≡ true
    → (sources a p i s).1.tables ≡ s.tables
unfolding sources list_sources
sources-tables a p i s g = ap (λ (r : Response × Site). r.1.tables) (if_true _ _ _ g)

policies-tables :
    (a : Answers) (p : Principal) (i : Input) (s : Site)
    → is_get i.method ≡ true
    → (policies a p i s).1.tables ≡ s.tables
unfolding policies list_policies
policies-tables a p i s g = ap (λ (r : Response × Site). r.1.tables) (if_true _ _ _ g)

drills-tables :
    (a : Answers) (p : Principal) (i : Input) (s : Site)
    → is_get i.method ≡ true
    → (drills a p i s).1.tables ≡ s.tables
unfolding drills show_drills
drills-tables a p i s g = ap (λ (r : Response × Site). r.1.tables) (if_true _ _ _ g)

mixed_assets :
    (a : Answers) (p : Principal) (i : Input) (s : Site) → Only asset_rows s (assets a p i s)
mixed_assets a p i s = assets-Only s (assets a p i s) (assets-Sets a p i s)

mixed_sources :
    (a : Answers) (p : Principal) (i : Input) (s : Site) → Only source_rows s (sources a p i s)
mixed_sources a p i s = sources-Only s (sources a p i s) (sources-Sets a p i s)

mixed_policies :
    (a : Answers) (p : Principal) (i : Input) (s : Site) → Only policy_rows s (policies a p i s)
mixed_policies a p i s = policies-Only s (policies a p i s) (policies-Sets a p i s)

mixed_drills :
    (a : Answers) (p : Principal) (i : Input) (s : Site) → Only drill_rows s (drills a p i s)
mixed_drills a p i s = drills-Only s (drills a p i s) (drills-Sets a p i s)

tenant_routes-Careful : All IsCarefulRoute tenant_routes
unfolding tenant_routes asset
tenant_routes-Careful = (
  viewer-IsCareful "drill.read" overview "GET" overview-tables,
  (
    reader-IsCareful asset_rows assets mixed_assets assets-tables,
    (
      writer-IsCareful asset_rows assets mixed_assets,
      (
        viewer-IsCareful "drill.read" asset "GET" (λ a p i s. refl),
        (
          reader-IsCareful source_rows sources mixed_sources sources-tables,
          (
            writer-IsCareful source_rows sources mixed_sources,
            (
              writer-IsCareful source_rows discover
                  (λ a p i s. sources-Only s (discover a p i s) (discover-Sets a p i s)),
              (
                reader-IsCareful policy_rows policies mixed_policies policies-tables,
                (writer-IsCareful policy_rows policies mixed_policies, tt),
              ),
            ),
          ),
        ),
      ),
    ),
  ),
)

drill_routes-Careful : All IsCarefulRoute drill_routes
unfolding drill_routes drill report
drill_routes-Careful = (
  reader-IsCareful drill_rows drills mixed_drills drills-tables,
  (
    writer-IsCareful drill_rows drills mixed_drills,
    (
      viewer-IsCareful "drill.read" drill "GET" (λ a p i s. refl),
      (
        writer-IsCareful drill_rows cancel
            (λ a p i s. drills-Only s (cancel a p i s) (cancel-Sets a p i s)),
        (
          viewer-IsCareful "drill.read" events "GET" events-tables,
          (viewer-IsCareful "report.export" report "GET" (λ a p i s. refl), tt),
        ),
      ),
    ),
  ),
)

view_routes-Careful : All IsCarefulRoute view_routes
unfolding view_routes roles users settings
view_routes-Careful = (
  viewer-IsCareful "backup_source.read" snapshots "GET" snapshots-tables,
  (
    viewer-IsCareful "evidence.read" evidence "GET" evidence-tables,
    (
      viewer-IsCareful "audit.read" audit "GET" audit-tables,
      (
        viewer-IsCareful "user.manage" roles "GET" (λ a p i s. refl),
        (
          viewer-IsCareful "user.manage" users "GET" (λ a p i s. refl),
          (viewer-IsCareful "settings.manage" settings "GET" (λ a p i s. refl), tt),
        ),
      ),
    ),
  ),
)

route_table-Careful : All IsCarefulRoute route_table
unfolding route_table
route_table-Careful =
    All-append IsCarefulRoute account_routes (tenant_routes ++ (drill_routes ++ view_routes))
      account_routes-Careful
      (All-append IsCarefulRoute tenant_routes (drill_routes ++ view_routes) tenant_routes-Careful (
        All-append IsCarefulRoute drill_routes view_routes drill_routes-Careful
          view_routes-Careful))

and_left : (x y : Bool) → (x && y) ≡ true → x ≡ true
and_left true y h = refl
and_left false y h = h

dispatch-Rightful :
    (a : Answers) (i : Input) (s : Site) (o : Option Route)
    → find (route_matches i) route_table ≡ o
    → Rightful a i s (dispatch o a i s)
unfolding dispatch
dispatch-Rightful a i s none e = λ part. inl (IsSame-refl part s.tables)
dispatch-Rightful a i s (some r) e =
    let (careful, m) =
      find-All IsCarefulRoute (route_matches i) route_table e route_table-Careful in
    careful a (record i { id = path_value r.path i.path }) s
      (and_left (method_matches r.method i.method) (path_matches r.path i.path) m)

-- Every request leaves each of the tables of assets, sources, policies and drills as it is, unless
-- the request has a live session and is either a POST with the session's CSRF token and no foreign
-- origin, whose principal has the permission that goes with the table, or a HEAD request whose
-- principal may read the table.
pub serve-Rightful : (a : Answers) (i : Input) (s : Site) → Rightful a i s (serve a i s)
unfolding serve
serve-Rightful a i s =
    if_either (Rightful a i s) (is_preflight a i) (λ part. inl (IsSame-refl part s.tables))
      (dispatch-Rightful a i s (find (route_matches i) route_table) refl)
