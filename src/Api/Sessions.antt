-- ===== src/Api/Sessions.antt =====
-- The handlers of sessions and of the account, and those that show fixed texts
-- (backend/internal/httpapi/handlers.go: login, logout, session, password, roles, users, settings;
-- server.go: ready).
use restoreguard.Common.{
  ℕ, ◌*◌, Bool, true, false, Option, none, some, [], ◌∷◌, String, if◌then◌else◌,
}
use restoreguard.Accounts
use restoreguard.Accounts.{Accounts, Principal, revoke, change_password}
use restoreguard.Api.Site.{
  Site, Body, credentials, passwords, Input, Answers, nothing, failure, status_text, logged_in,
  user_shown, roles_shown, Response, Handler, reply, bad_input, write_audit,
}

-- Twelve hours.
abbrev pub session_lifetime : ℕ
session_lifetime = 43200 * 1000000000

abbrev pub login_reply :
    Answers → Option (Principal × String × String) × Accounts → Site → Response × Site
login_reply a (none, accounts) s =
    (reply 401 (failure "INVALID_CREDENTIALS"), record s { accounts = accounts })
login_reply a (some (p, token, csrf), accounts) s = (
  reply 200 (logged_in p csrf),
  write_audit a p "auth.login" "" (record s { accounts = accounts }),
)

unfoldable pub login : Answers → Input → Option Body → Site → Response × Site
login a i (some (credentials email password)) s =
    login_reply a (Accounts.login a.services (a.trim email) password session_lifetime s.accounts) s
login a i _ s = (bad_input, s)

abbrev pub revoke_session : Answers → Option String → Accounts → Accounts
revoke_session a none accounts = accounts
revoke_session a (some token) accounts = (revoke a.services token accounts).1

unfoldable pub logout : Handler
unfolding revoke
logout a p i s = (
  reply 204 nothing,
  write_audit a p "auth.logout" "" (record s { accounts = revoke_session a i.session s.accounts }),
)

unfoldable pub session : Handler
session a p i s = (reply 200 (user_shown p), s)

abbrev pub password_reply : Bool × Accounts → Site → Response × Site
password_reply (true, accounts) s =
    (reply 400 (failure "PASSWORD_CHANGE_FAILED"), record s { accounts = accounts })
password_reply (false, accounts) s = (reply 204 nothing, record s { accounts = accounts })

unfoldable pub password_with : Answers → Principal → Option Body → Site → Response × Site
unfolding change_password
password_with a p (some (passwords current next)) s =
    password_reply (change_password a.services p current next s.accounts) s
password_with a p _ s = (bad_input, s)

unfoldable pub password : Handler
unfolding password_with
password a p i s = password_with a p i.body s

unfoldable pub roles : Handler
roles a p i s = (
  reply 200 (
      roles_shown
        ("OWNER" ∷ "ADMIN" ∷ "RECOVERY_ENGINEER" ∷ "OPERATOR" ∷ "AUDITOR" ∷ "VIEWER" ∷ [])),
  s,
)

unfoldable pub users : Handler
users a p i s = (reply 200 (user_shown p), s)

unfoldable pub settings : Handler
settings a p i s = (reply 200 (status_text "EXPERIMENTAL"), s)

unfoldable pub ready : Answers → Site → Response × Site
ready a s =
    if a.health_fails
    then (reply 503 (failure "NOT_READY"), s)
    else (reply 200 (status_text "ready"), s)
