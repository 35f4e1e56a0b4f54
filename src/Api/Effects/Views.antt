-- ===== src/Api/Effects/Views.antt =====
-- The handlers of backend/internal/httpapi/handlers.go that change none of the tables.
use restoreguard.Common.{
  ◌≡◌, refl, Bool, true, false, Option, none, some, String, if◌then◌else◌, if_either,
}
use restoreguard.Accounts
use restoreguard.Accounts.{Accounts, change_password, Principal, authenticate}
use restoreguard.Records.Assets.{Reply, error, ok}
use restoreguard.Records.Drills.{DrillRow, get_drill}
use restoreguard.Api.Site.{Site, Body, credentials, passwords, Input, Answers, Response}
use restoreguard.Api.Sessions.{
  login, login_reply, session_lifetime, revoke_session, password_reply, password_with, logout,
  password,
}
use restoreguard.Api.Views.{overview, snapshots, evidence, audit, simple_rows}
use restoreguard.Api.Runs.{events, stream}
use restoreguard.Api.Effects.{write_audit-tables}

pub view-tables :
    (x y : Response) (b : Bool) (s : Site)
    → (if◌then◌else◌ {A = Response × Site} b (x, s) (y, s)).1.tables ≡ s.tables
view-tables x y b s = if_either (λ (r : Response × Site). r.1.tables ≡ s.tables) b refl refl

pub evidence-tables :
    (a : Answers) (p : Principal) (i : Input) (s : Site) → (evidence a p i s).1.tables ≡ s.tables
unfolding evidence simple_rows
evidence-tables a p i s = view-tables _ _ a.query_fails s

pub audit-tables :
    (a : Answers) (p : Principal) (i : Input) (s : Site) → (audit a p i s).1.tables ≡ s.tables
unfolding audit simple_rows
audit-tables a p i s = view-tables _ _ a.query_fails s

pub snapshots-tables :
    (a : Answers) (p : Principal) (i : Input) (s : Site) → (snapshots a p i s).1.tables ≡ s.tables
unfolding snapshots
snapshots-tables a p i s = view-tables _ _ a.query_fails s

pub overview-tables :
    (a : Answers) (p : Principal) (i : Input) (s : Site) → (overview a p i s).1.tables ≡ s.tables
unfolding overview
overview-tables a p i s = view-tables _ _ a.query_fails s

stream-tables :
    (a : Answers) (id : String) (r : Reply DrillRow) (s : Site)
    → (stream a id r s).1.tables ≡ s.tables
unfolding stream
stream-tables a id (error e) s = refl
stream-tables a id (ok d) s =
    if_either (λ (r : Response × Site). r.1.tables ≡ s.tables) a.streaming refl refl

pub events-tables :
    (a : Answers) (p : Principal) (i : Input) (s : Site) → (events a p i s).1.tables ≡ s.tables
unfolding events
events-tables a p i s =
    stream-tables a i.id (get_drill a.query_fails p.organization_id i.id s.tables) s

pub logout-tables :
    (a : Answers) (p : Principal) (i : Input) (s : Site) → (logout a p i s).1.tables ≡ s.tables
unfolding logout
logout-tables a p i s =
    write_audit-tables a p "auth.logout" ""
      (record s { accounts = revoke_session a i.session s.accounts })

password_reply-tables : (r : Bool × Accounts) (s : Site) → (password_reply r s).1.tables ≡ s.tables
password_reply-tables (true, accounts) s = refl
password_reply-tables (false, accounts) s = refl

password_with-tables :
    (a : Answers) (p : Principal) (b : Option Body) (s : Site)
    → (password_with a p b s).1.tables ≡ s.tables
unfolding password_with
password_with-tables a p none s = refl
password_with-tables a p (some (passwords current next)) s =
    password_reply-tables (change_password a.services p current next s.accounts) s
password_with-tables a p (some _) s = refl

pub password-tables :
    (a : Answers) (p : Principal) (i : Input) (s : Site) → (password a p i s).1.tables ≡ s.tables
unfolding password
password-tables a p i s = password_with-tables a p i.body s

login_reply-tables :
    (a : Answers) (r : Option (Principal × String × String) × Accounts) (s : Site)
    → (login_reply a r s).1.tables ≡ s.tables
login_reply-tables a (none, accounts) s = refl
login_reply-tables a (some (p, token, csrf), accounts) s =
    write_audit-tables a p "auth.login" "" (record s { accounts = accounts })

pub login-tables :
    (a : Answers) (i : Input) (b : Option Body) (s : Site) → (login a i b s).1.tables ≡ s.tables
unfolding login
login-tables a i none s = refl
login-tables a i (some (credentials email pass)) s =
    login_reply-tables a (Accounts.login a.services (a.trim email) pass session_lifetime s.accounts)
      s
login-tables a i (some _) s = refl
