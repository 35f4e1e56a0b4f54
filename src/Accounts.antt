-- ===== src/Accounts.antt =====
-- Users and sessions (backend/internal/database/store.go: Login, roles, Authenticate, Revoke,
-- ChangePassword, randomToken). A table is the list of its rows, and a statement a function on them.
pub mod Opening
pub mod Closing
pub mod Bootstrap
pub mod Examples
use restoreguard.Common.{
  ℕ, ◌+◌, Bool, true, false, ◌&&◌, ◌||◌, not, Option, none, some, List, [], ◌∷◌, map, String,
  str_eq, ltb, any, find, first, filter, if◌then◌else◌,
}
use restoreguard.Domain.Recovery.{Time}

pub record User : Type 0 where
  pub id : String
  pub organization_id : String
  pub email : String
  pub display_name : String
  pub password_hash : String
  pub active : Bool

-- A row of `user_roles` with the name of its role.
pub record RoleRow : Type 0 where
  pub user_id : String
  pub organization_id : String
  pub role : String

pub record Session : Type 0 where
  pub organization_id : String
  pub user_id : String
  pub token_hash : String
  pub csrf_hash : String
  pub expires_at : Time
  pub revoked : Bool

pub record Accounts : Type 0 where
  pub users : List User
  pub role_rows : List RoleRow
  pub sessions : List Session

pub record Principal : Type 0 where
  pub user_id : String
  pub organization_id : String
  pub email : String
  pub display_name : String
  pub roles : List String

-- The calls that can fail.
pub data Call : Type 0 where
  find_user read_roles session_token csrf_token insert_session find_session revoke_session : Call
  read_password begin_change update_password revoke_sessions commit_change : Call

pub record Services : Type 0 where
  pub fails : Call → Bool
  pub sha256 : String → String
  -- `lower` of PostgreSQL
  pub lower : String → String
  pub verify_password : String → String → Bool
  pub hash_password : String → Option String
  -- what randomToken gives to the next Login
  pub token : String
  pub csrf : String
  pub now : Time

-- `WHERE lower(email)=lower($1) AND active=true`
abbrev pub has_email : Services → String → User → Bool
has_email s email u = str_eq (s.lower u.email) (s.lower email) && u.active

abbrev is_role_of : String → String → RoleRow → Bool
is_role_of user_id organization_id r =
    str_eq r.user_id user_id && str_eq r.organization_id organization_id

unfoldable pub roles : Accounts → String → String → List String
roles a user_id organization_id =
    map (λ r. r.role) (filter (is_role_of user_id organization_id) a.role_rows)

abbrev pub principal_of : Accounts → User → Principal
principal_of a u = record {
  user_id = u.id;
  organization_id = u.organization_id;
  email = u.email;
  display_name = u.display_name;
  roles = roles a u.id u.organization_id;
}

abbrev pub new_session : Services → ℕ → User → Session
new_session s ttl u = record {
  organization_id = u.organization_id;
  user_id = u.id;
  token_hash = s.sha256 s.token;
  csrf_hash = s.sha256 s.csrf;
  expires_at = s.now + ttl;
  revoked = false;
}

abbrev pub has_hash : String → Session → Bool
has_hash hash session = str_eq session.token_hash hash

-- The calls of Login after the password was verified, the last of which inserts a session with a
-- unique token hash.
abbrev pub login_fails : Services → Accounts → Bool
login_fails s a =
    s.fails read_roles
    || s.fails session_token
    || s.fails csrf_token
    || s.fails insert_session
    || any (has_hash (s.sha256 s.token)) a.sessions

unfoldable pub login_user :
    Services → String → ℕ → Option User → Accounts → Option (Principal × String × String) × Accounts
login_user s password ttl none a = (none, a)
login_user s password ttl (some u) a =
    if not (s.verify_password u.password_hash password)
    then (none, a)
    else if login_fails s a
    then (none, a)
    else (
      some (principal_of a u, s.token, s.csrf),
      record a { sessions = new_session s ttl u ∷ a.sessions },
    )

-- The principal and the two tokens.
unfoldable pub login :
    Services → String → String → ℕ → Accounts → Option (Principal × String × String) × Accounts
unfolding login_user
login s email password ttl a =
    if s.fails find_user
    then (none, a)
    else login_user s password ttl (find (has_email s email) a.users) a

-- `se.revoked_at IS NULL AND se.expires_at>now()`
abbrev pub is_live : Services → String → Session → Bool
is_live s hash session =
    has_hash hash session && not session.revoked && ltb s.now session.expires_at

abbrev pub is_holder : Session → User → Bool
is_holder session u =
    str_eq u.id session.user_id && str_eq u.organization_id session.organization_id && u.active

abbrev pub with_csrf : Accounts → Session → Option User → Option (Principal × String)
with_csrf a session none = none
with_csrf a session (some u) = some (principal_of a u, session.csrf_hash)

-- The join of a session with its active user.
abbrev pub joined : Services → Accounts → String → Session → Option (Principal × String)
joined s a hash session =
    if is_live s hash session then with_csrf a session (find (is_holder session) a.users) else none

-- The principal and the CSRF hash.
unfoldable pub authenticate : Services → String → Accounts → Option (Principal × String)
unfolding roles
authenticate s token a =
    if s.fails find_session || s.fails read_roles
    then none
    else first (joined s a (s.sha256 token)) a.sessions

abbrev close_if : Bool → Session → Session
close_if b session = if b then record session { revoked = true } else session

-- The update of Revoke on one row.
abbrev pub close_token : String → Session → Session
close_token hash session = close_if (has_hash hash session && not session.revoked) session

unfoldable pub revoke : Services → String → Accounts → Bool × Accounts
revoke s token a =
    if s.fails revoke_session
    then (true, a)
    else (false, record a { sessions = map (close_token (s.sha256 token)) a.sessions })

abbrev pub is_user : Principal → User → Bool
is_user p u = str_eq u.id p.user_id && str_eq u.organization_id p.organization_id

abbrev pub is_own : Principal → Session → Bool
is_own p session =
    str_eq session.user_id p.user_id && str_eq session.organization_id p.organization_id

-- The update of ChangePassword on one row.
abbrev pub close_own : Principal → Session → Session
close_own p session = close_if (is_own p session) session

abbrev pub set_password : Principal → String → User → User
set_password p hash u = if is_user p u then record u { password_hash = hash } else u

-- The transaction of ChangePassword.
abbrev pub write_password : Principal → String → Accounts → Accounts
write_password p hash a = record a {
  users = map (set_password p hash) a.users;
  sessions = map (close_own p) a.sessions;
}

abbrev pub change_fails : Services → Bool
change_fails s =
    s.fails begin_change
    || s.fails update_password
    || s.fails revoke_sessions
    || s.fails commit_change

unfoldable pub change_hashed : Services → Principal → Option String → Accounts → Bool × Accounts
change_hashed s p none a = (true, a)
change_hashed s p (some hash) a =
    if change_fails s then (true, a) else (false, write_password p hash a)

unfoldable pub change_user :
    Services → Principal → String → String → Option User → Accounts → Bool × Accounts
unfolding change_hashed
change_user s p current next none a = (true, a)
change_user s p current next (some u) a =
    if not (s.verify_password u.password_hash current)
    then (true, a)
    else change_hashed s p (s.hash_password next) a

-- The result tells whether an error is returned.
unfoldable pub change_password : Services → Principal → String → String → Accounts → Bool × Accounts
unfolding change_user
change_password s p current next a =
    if s.fails read_password
    then (true, a)
    else change_user s p current next (find (is_user p) a.users) a
