-- ===== src/Api/Authority/Head.antt =====
-- A request with the method HEAD, which the multiplexer gives to the handlers of GET
-- (backend/internal/httpapi/server.go: New; handlers.go: drills).
use restoreguard.Common.{
  ◌≡◌, refl, ap, ◌∙◌, inl, inr, Bool, true, false, ◌&&◌, some, [], ◌∷◌, String, str_eq, not,
}
use restoreguard.Access.Roles.{allowed}
use restoreguard.Access.Guard.{Visitor, require}
use restoreguard.Access.Privilege.{allowed_iff, require_iff}
use restoreguard.Api.Site.{Site, Input, Answers}
use restoreguard.Api.Runs.{drills, make_drill}
use restoreguard.Api.Routes.{
  api, account_routes, tenant_routes, drill_routes, view_routes, route_table, server_of, request_of,
  admit, act, dispatch, serve, is_preflight,
}

abbrev pub head_drills : Input → Input
head_drills i = record i { method = "HEAD"; path = api ("drills" ∷ []); id = "" }

and_false : (x y : Bool) → (x && y && false) ≡ false
and_false true true = refl
and_false true false = refl
and_false false y = refl

head-preflight : (a : Answers) (i : Input) → is_preflight a (head_drills i) ≡ false
head-preflight a i = and_false (not (str_eq i.origin "")) (str_eq i.origin a.cors_origin)

module _ (a : Answers) (i : Input) (s : Site) (v : Visitor) where
  head_dispatched :
      serve a (head_drills i) s
      ≡ admit drills a
          (head_drills i)
          s
          (require (server_of a s) "drill.read" (request_of (head_drills i)))
  unfolding serve dispatch act route_table account_routes tenant_routes drill_routes view_routes
  head_dispatched = rw (head-preflight a i) refl

  -- A HEAD request for the drills, which carries the session of a principal who may read drills, is
  -- handled as the creation of a drill, whatever else the roles allow and whatever CSRF token and
  -- origin it has.
  pub serve-head :
      (token : String)
      → i.session ≡ some token
      → (server_of a s).authenticate token ≡ some v
      → allowed v.principal.roles "drill.read" ≡ true
      → serve a (head_drills i) s ≡ make_drill a v.principal (head_drills i) i.body s
  unfolding drills
  serve-head token held live may =
      head_dispatched
      ∙ ap (admit drills a (head_drills i) s) (
          (require_iff (server_of a s) "drill.read" (request_of (head_drills i)) v).1 (
            token,
            held,
            live,
            inr ((allowed_iff v.principal.roles "drill.read").0 may),
            inl (inr (inl refl)),
          ))
