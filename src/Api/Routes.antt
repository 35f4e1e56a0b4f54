-- ===== src/Api/Routes.antt =====
-- The routes (backend/internal/httpapi/server.go: New) behind `secure` and `require`
-- (backend/internal/httpapi/middleware.go). The multiplexer is Go's: a pattern for GET also takes HEAD,
-- and a path that only patterns for other methods match is answered by 405.
use restoreguard.Common.{
  Bool, true, false, ◌&&◌, ◌||◌, not, Option, none, some, List, [], ◌∷◌, ◌++◌, String, str_eq, any,
  find, if◌then◌else◌,
}
use restoreguard.Accounts.{Principal, authenticate}
use restoreguard.Access.Guard.{
  Request, Visitor, Server, Outcome, unauthenticated, invalid_session, forbidden, csrf_invalid,
  origin_invalid, served, require,
}
use restoreguard.Api.Site.{
  Site, Input, Answers, nothing, failure, status_text, Response, Handler, reply,
}
use restoreguard.Api.Sessions.{login, logout, session, password, roles, users, settings, ready}
use restoreguard.Api.Tenant.{assets, asset, sources, discover, policies}
use restoreguard.Api.Views.{overview, snapshots, evidence, audit}
use restoreguard.Api.Runs.{drills, drill, cancel, events, report}

pub data Action : Type 0 where
  public : (Answers → Input → Site → Response × Site) → Action
  -- the permission and the handler that `require` gets
  guarded : String → Handler → Action

pub record Route : Type 0 where
  pub method : String
  pub path : List String
  pub action : Action

abbrev wildcard : String
wildcard = "{id}"

abbrev pub health : Answers → Input → Site → Response × Site
health a i s = (reply 200 (status_text "ok"), s)

abbrev pub is_ready : Answers → Input → Site → Response × Site
is_ready a i s = ready a s

abbrev log_in : Answers → Input → Site → Response × Site
log_in a i s = login a i i.body s

abbrev pub get : List String → Action → Route
get path action = record { method = "GET"; path = path; action = action }

abbrev pub post : List String → Action → Route
post path action = record { method = "POST"; path = path; action = action }

abbrev pub api : List String → List String
api path = "api" ∷ "v1" ∷ path

unfoldable pub account_routes : List Route
account_routes =
    get ("health" ∷ []) (public health)
    ∷ get ("ready" ∷ []) (public is_ready)
    ∷ post (api ("auth" ∷ "login" ∷ [])) (public log_in)
    ∷ post (api ("auth" ∷ "logout" ∷ [])) (guarded "" logout)
    ∷ get (api ("auth" ∷ "session" ∷ [])) (guarded "" session)
    ∷ post (api ("auth" ∷ "password" ∷ [])) (guarded "" password)
    ∷ []

unfoldable pub tenant_routes : List Route
tenant_routes =
    get (api ("overview" ∷ [])) (guarded "drill.read" overview)
    ∷ get (api ("protected-assets" ∷ [])) (guarded "drill.read" assets)
    ∷ post (api ("protected-assets" ∷ [])) (guarded "settings.manage" assets)
    ∷ get (api ("protected-assets" ∷ wildcard ∷ [])) (guarded "drill.read" asset)
    ∷ get (api ("backup-sources" ∷ [])) (guarded "backup_source.read" sources)
    ∷ post (api ("backup-sources" ∷ [])) (guarded "backup_source.manage" sources)
    ∷ post (api ("backup-sources" ∷ wildcard ∷ "discover" ∷ []))
        (guarded "backup_source.manage" discover)
    ∷ get (api ("recovery-policies" ∷ [])) (guarded "recovery_policy.read" policies)
    ∷ post (api ("recovery-policies" ∷ [])) (guarded "recovery_policy.manage" policies)
    ∷ []

unfoldable pub drill_routes : List Route
drill_routes =
    get (api ("drills" ∷ [])) (guarded "drill.read" drills)
    ∷ post (api ("drills" ∷ [])) (guarded "drill.run" drills)
    ∷ get (api ("drills" ∷ wildcard ∷ [])) (guarded "drill.read" drill)
    ∷ post (api ("drills" ∷ wildcard ∷ "cancel" ∷ [])) (guarded "drill.run" cancel)
    ∷ get (api ("drills" ∷ wildcard ∷ "events" ∷ [])) (guarded "drill.read" events)
    ∷ get (api ("drills" ∷ wildcard ∷ "report" ∷ [])) (guarded "report.export" report)
    ∷ []

unfoldable pub view_routes : List Route
view_routes =
    get (api ("snapshots" ∷ [])) (guarded "backup_source.read" snapshots)
    ∷ get (api ("evidence" ∷ [])) (guarded "evidence.read" evidence)
    ∷ get (api ("audit" ∷ [])) (guarded "audit.read" audit)
    ∷ get (api ("roles" ∷ [])) (guarded "user.manage" roles)
    ∷ get (api ("users" ∷ [])) (guarded "user.manage" users)
    ∷ get (api ("settings" ∷ [])) (guarded "settings.manage" settings)
    ∷ []

unfoldable pub route_table : List Route
unfolding account_routes tenant_routes drill_routes view_routes
route_table = account_routes ++ (tenant_routes ++ (drill_routes ++ view_routes))

abbrev pub path_matches : List String → List String → Bool
path_matches [] [] = true
path_matches [] (x ∷ xs) = false
path_matches (k ∷ ks) [] = false
path_matches (k ∷ ks) (x ∷ xs) =
    (str_eq k wildcard && not (str_eq x "") || str_eq k x) && path_matches ks xs

-- `r.PathValue("id")`
abbrev pub path_value : List String → List String → String
path_value [] xs = ""
path_value (k ∷ ks) [] = ""
path_value (k ∷ ks) (x ∷ xs) = let rest = path_value ks xs in if str_eq k wildcard then x else rest

abbrev pub method_matches : String → String → Bool
method_matches pattern method =
    str_eq pattern method || str_eq pattern "GET" && str_eq method "HEAD"

abbrev pub route_matches : Input → Route → Bool
route_matches i r = method_matches r.method i.method && path_matches r.path i.path

abbrev pub request_of : Input → Request
request_of i = record {
  method = i.method;
  session = i.session;
  csrf_token = i.csrf_token;
  origin = i.origin;
}

abbrev visitor_of : Option (Principal × String) → Option Visitor
visitor_of none = none
visitor_of (some (p, csrf_hash)) = some (record { principal = p; csrf_hash = csrf_hash })

abbrev pub server_of : Answers → Site → Server
server_of a s = record {
  authenticate = λ token. visitor_of (authenticate a.services token s.accounts);
  sha256 = a.services.sha256;
  equal_fold = a.equal_fold;
  cors_origin = a.cors_origin;
}

abbrev pub admit : Handler → Answers → Input → Site → Outcome → Response × Site
admit handler a i s (served v) = handler a v.principal i s
admit handler a i s unauthenticated = (reply 401 (failure "UNAUTHORIZED"), s)
admit handler a i s invalid_session = (reply 401 (failure "UNAUTHORIZED"), s)
admit handler a i s forbidden = (reply 403 (failure "FORBIDDEN"), s)
admit handler a i s csrf_invalid = (reply 403 (failure "CSRF_INVALID"), s)
admit handler a i s origin_invalid = (reply 403 (failure "ORIGIN_INVALID"), s)

unfoldable pub act : Action → Answers → Input → Site → Response × Site
unfolding authenticate require
act (public handler) a i s = handler a i s
act (guarded permission handler) a i s =
    admit handler a i s (require (server_of a s) permission (request_of i))

unfoldable pub dispatch : Option Route → Answers → Input → Site → Response × Site
unfolding act route_table
dispatch (some r) a i s = act r.action a (record i { id = path_value r.path i.path }) s
dispatch none a i s = (
  reply (if any (λ (r : Route). path_matches r.path i.path) route_table then 405 else 404) nothing,
  s,
)

-- `secure` answers the preflight requests of the program's own page.
abbrev pub is_preflight : Answers → Input → Bool
is_preflight a i =
    not (str_eq i.origin "") && str_eq i.origin a.cors_origin && str_eq i.method "OPTIONS"

unfoldable pub serve : Answers → Input → Site → Response × Site
unfolding dispatch route_table
serve a i s =
    if is_preflight a i
    then (reply 204 nothing, s)
    else dispatch (find (route_matches i) route_table) a i s
