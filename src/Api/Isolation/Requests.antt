-- ===== src/Api/Isolation/Requests.antt =====
-- A whole request, for another organization.
use restoreguard.Common.{
  ◌≡◌, refl, subst, ◌≢◌, Option, none, some, ◌++◌, String, find, if_either, All, All-append,
  find-All,
}
use restoreguard.Accounts.{Principal}
use restoreguard.Access.Guard.{
  Visitor, Outcome, served, require, unauthenticated, invalid_session, forbidden, csrf_invalid,
  origin_invalid,
}
use restoreguard.Access.Privilege.{require_iff}
use restoreguard.Api.Site.{Site, Input, Answers, Handler}
use restoreguard.Api.Sessions.{logout, session, password, roles, users, settings, ready}
use restoreguard.Api.Tenant.{assets, asset, sources, discover, policies}
use restoreguard.Api.Views.{overview, snapshots, evidence, audit}
use restoreguard.Api.Runs.{drills, drill, cancel, events, report}
use restoreguard.Api.Routes.{
  Route, Action, guarded, account_routes, tenant_routes, drill_routes, view_routes, route_table,
  server_of, request_of, admit, act, dispatch, serve, route_matches, path_value, is_preflight,
}
use restoreguard.Api.Isolation.{Spares, kept}
use restoreguard.Api.Isolation.Rows.{
  assets-Spares, asset-Spares, sources-Spares, discover-Spares, policies-Spares,
}
use restoreguard.Api.Isolation.Runs.{
  drills-Spares, drill-Spares, cancel-Spares, events-Spares, report-Spares,
}
use restoreguard.Api.Isolation.Views.{
  overview-Spares, snapshots-Spares, evidence-Spares, audit-Spares, logout-Spares, password-Spares,
}
use restoreguard.Api.Isolation.Logins.{IsBodyOutside, login-Spares}

module _ (o : String) where
  abbrev IsVisitorOutside : Option Visitor → Type 0
  IsVisitorOutside none = Unit {0}
  IsVisitorOutside (some v) = v.principal.organization_id ≢ o

  abbrev IsSessionOutside : Answers → Site → Option String → Type 0
  IsSessionOutside a s none = Unit {0}
  IsSessionOutside a s (some token) = IsVisitorOutside ((server_of a s).authenticate token)

  -- Neither the session of the request nor the credentials in its body are of the organization.
  abbrev pub IsOutside : Answers → Input → Site → Type 0
  IsOutside a i s = IsSessionOutside a s i.session × IsBodyOutside o a s i.body

  abbrev IsDiscreet : Handler → Type 0
  IsDiscreet handler =
      (a : Answers) (p : Principal)
      → p.organization_id ≢ o
      → (i : Input) (s : Site) → Spares o s (handler a p i s)

  abbrev IsIsolated : Action → Type 0
  IsIsolated action =
      (a : Answers) (i : Input) (s : Site) → IsOutside a i s → Spares o s (act action a i s)

  session_outside :
      (a : Answers) (s : Site) (held : Option String) (token : String) (v : Visitor)
      → held ≡ some token
      → (server_of a s).authenticate token ≡ some v
      → IsSessionOutside a s held
      → v.principal.organization_id ≢ o
  session_outside a s held token v e live h =
      subst IsVisitorOutside live (subst (IsSessionOutside a s) e h)

  module _ (permission : String) (handler : Handler) (discreet : IsDiscreet handler) where
    admit-Spares :
        (a : Answers) (i : Input) (s : Site)
        → IsOutside a i s
        → (outcome : Outcome) → require (server_of a s) permission (request_of i) ≡ outcome
        → Spares o s (admit handler a i s outcome)
    admit-Spares a i s h (served v) e =
        let (token, held, live, _, _) =
          (require_iff (server_of a s) permission (request_of i) v).0 e in
        discreet a v.principal (session_outside a s i.session token v held live h.0) i s
    admit-Spares a i s h unauthenticated e = (tt, kept o s)
    admit-Spares a i s h invalid_session e = (tt, kept o s)
    admit-Spares a i s h forbidden e = (tt, kept o s)
    admit-Spares a i s h csrf_invalid e = (tt, kept o s)
    admit-Spares a i s h origin_invalid e = (tt, kept o s)

    guarded-IsIsolated : IsIsolated (guarded permission handler)
    unfolding act
    guarded-IsIsolated a i s h =
        admit-Spares a i s h (require (server_of a s) permission (request_of i)) refl

  abbrev IsIsolatedRoute : Route → Type 0
  IsIsolatedRoute r = IsIsolated r.action

  account_routes-Isolated : All IsIsolatedRoute account_routes
  unfolding account_routes act ready session
  account_routes-Isolated = (
    λ a i s h. (tt, kept o s),
    (
      λ a i s h. if_either (Spares o s) a.health_fails (tt, kept o s) (tt, kept o s),
      (
        λ a i s h. login-Spares o a i i.body s h.1,
        (
          guarded-IsIsolated "" logout (logout-Spares o),
          (
            guarded-IsIsolated "" session (λ a p n i s. (n, kept o s)),
            (guarded-IsIsolated "" password (password-Spares o), tt),
          ),
        ),
      ),
    ),
  )

  tenant_routes-Isolated : All IsIsolatedRoute tenant_routes
  unfolding tenant_routes
  tenant_routes-Isolated = (
    guarded-IsIsolated "drill.read" overview (overview-Spares o),
    (
      guarded-IsIsolated "drill.read" assets (assets-Spares o),
      (
        guarded-IsIsolated "settings.manage" assets (assets-Spares o),
        (
          guarded-IsIsolated "drill.read" asset (asset-Spares o),
          (
            guarded-IsIsolated "backup_source.read" sources (sources-Spares o),
            (
              guarded-IsIsolated "backup_source.manage" sources (sources-Spares o),
              (
                guarded-IsIsolated "backup_source.manage" discover (discover-Spares o),
                (
                  guarded-IsIsolated "recovery_policy.read" policies (policies-Spares o),
                  (guarded-IsIsolated "recovery_policy.manage" policies (policies-Spares o), tt),
                ),
              ),
            ),
          ),
        ),
      ),
    ),
  )

  drill_routes-Isolated : All IsIsolatedRoute drill_routes
  unfolding drill_routes
  drill_routes-Isolated = (
    guarded-IsIsolated "drill.read" drills (drills-Spares o),
    (
      guarded-IsIsolated "drill.run" drills (drills-Spares o),
      (
        guarded-IsIsolated "drill.read" drill (drill-Spares o),
        (
          guarded-IsIsolated "drill.run" cancel (cancel-Spares o),
          (
            guarded-IsIsolated "drill.read" events (events-Spares o),
            (guarded-IsIsolated "report.export" report (report-Spares o), tt),
          ),
        ),
      ),
    ),
  )

  view_routes-Isolated : All IsIsolatedRoute view_routes
  unfolding view_routes roles users settings
  view_routes-Isolated = (
    guarded-IsIsolated "backup_source.read" snapshots (snapshots-Spares o),
    (
      guarded-IsIsolated "evidence.read" evidence (evidence-Spares o),
      (
        guarded-IsIsolated "audit.read" audit (audit-Spares o),
        (
          guarded-IsIsolated "user.manage" roles (λ a p n i s. (tt, kept o s)),
          (
            guarded-IsIsolated "user.manage" users (λ a p n i s. (n, kept o s)),
            (guarded-IsIsolated "settings.manage" settings (λ a p n i s. (tt, kept o s)), tt),
          ),
        ),
      ),
    ),
  )

  route_table-Isolated : All IsIsolatedRoute route_table
  unfolding route_table
  route_table-Isolated =
      All-append IsIsolatedRoute account_routes (tenant_routes ++ (drill_routes ++ view_routes))
        account_routes-Isolated
        (All-append IsIsolatedRoute tenant_routes (drill_routes ++ view_routes)
          tenant_routes-Isolated
          (All-append IsIsolatedRoute drill_routes view_routes drill_routes-Isolated
            view_routes-Isolated))

  dispatch-Spares :
      (a : Answers) (i : Input) (s : Site)
      → IsOutside a i s
      → (r : Option Route) → find (route_matches i) route_table ≡ r
      → Spares o s (dispatch r a i s)
  unfolding dispatch
  dispatch-Spares a i s h none e = (tt, kept o s)
  dispatch-Spares a i s h (some r) e =
      (find-All IsIsolatedRoute (route_matches i) route_table e route_table-Isolated).0 a
        (record i { id = path_value r.path i.path }) s h

  -- A request whose session, if it is live, and whose credentials, if a user has them, are not of
  -- an organization shows no row, user or principal of that organization, and leaves its assets,
  -- sources, policies, drills, snapshots, evidence, audit events and users as they are, whatever
  -- the route, the identifiers in it and the answers of the database.
  pub serve-Spares :
      (a : Answers) (i : Input) (s : Site) → IsOutside a i s → Spares o s (serve a i s)
  unfolding serve
  serve-Spares a i s h =
      if_either (Spares o s) (is_preflight a i) (tt, kept o s)
        (dispatch-Spares a i s h (find (route_matches i) route_table) refl)
