-- ===== src/Access/Guard.antt =====
-- The guard of the handlers (backend/internal/httpapi/middleware.go: require). The store's answer to
-- a session token, the hash and the folding of text are parameters.
use restoreguard.Common.{Bool, ◌&&◌, ◌||◌, not, Option, none, some, String, str_eq, if◌then◌else◌}
use restoreguard.Accounts.{Principal}
use restoreguard.Access.Roles.{allowed}

pub record Request : Type 0 where
  pub method : String
  -- the session cookie
  pub session : Option String
  pub csrf_token : String
  pub origin : String

-- What Authenticate gives for a live session.
pub record Visitor : Type 0 where
  pub principal : Principal
  pub csrf_hash : String

pub record Server : Type 0 where
  pub authenticate : String → Option Visitor
  pub sha256 : String → String
  pub equal_fold : String → String → Bool
  pub cors_origin : String

pub data Outcome : Type 0 where
  unauthenticated invalid_session forbidden csrf_invalid origin_invalid : Outcome
  served : Visitor → Outcome

abbrev pub is_safe_method : String → Bool
is_safe_method method = str_eq method "GET" || str_eq method "HEAD" || str_eq method "OPTIONS"

abbrev pub bad_token : Server → Visitor → Request → Bool
bad_token s p r = str_eq r.csrf_token "" || not (str_eq (s.sha256 r.csrf_token) p.csrf_hash)

abbrev pub bad_origin : Server → Request → Bool
bad_origin s r = not (str_eq r.origin "") && not (s.equal_fold r.origin s.cors_origin)

unfoldable pub require_principal : Server → String → Request → Option Visitor → Outcome
unfolding allowed
require_principal s permission r none = invalid_session
require_principal s permission r (some p) =
    if not (str_eq permission "") && not (allowed p.principal.roles permission)
    then forbidden
    else if not (is_safe_method r.method) && bad_token s p r
    then csrf_invalid
    else if not (is_safe_method r.method) && bad_origin s r
    then origin_invalid
    else served p

unfoldable pub require_session : Server → String → Request → Option String → Outcome
unfolding require_principal
require_session s permission r none = unauthenticated
require_session s permission r (some token) =
    require_principal s permission r (s.authenticate token)

unfoldable pub require : Server → String → Request → Outcome
unfolding require_session
require s permission r = require_session s permission r r.session
