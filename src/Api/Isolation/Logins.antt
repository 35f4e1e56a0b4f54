-- ===== src/Api/Isolation/Logins.antt =====
-- What Login shows to a user of another organization (backend/internal/httpapi/handlers.go: login).
use restoreguard.Common.{
  ◌≡◌, refl, ap, ◌≢◌, Option, none, some, ◌∷◌, String, not, if◌then◌else◌, find, if_either,
}
use restoreguard.Accounts
use restoreguard.Accounts.{
  User, Accounts, Principal, has_email, login_fails, login_user, principal_of, new_session,
}
use restoreguard.Api.Site.{Site, Body, credentials, Input, Answers}
use restoreguard.Api.Sessions.{login, login_reply, session_lifetime}
use restoreguard.Api.Tenants.{rows_of}
use restoreguard.Api.Isolation.{Spares, kept, audited, accounts-IsKept}

module _ (o : String) where
  abbrev IsUserOutside : Option User → Type 0
  IsUserOutside none = Unit {0}
  IsUserOutside (some u) = u.organization_id ≢ o

  abbrev pub IsBodyOutside : Answers → Site → Option Body → Type 0
  IsBodyOutside a s (some (credentials email secret)) =
      IsUserOutside (find (has_email a.services (a.trim email)) s.accounts.users)
  IsBodyOutside a s _ = Unit {0}

  -- What Login gives for a user of another organization.
  abbrev SparesLogin : Accounts → Option (Principal × String × String) × Accounts → Type 0
  SparesLogin accounts (none, after) = after.users ≡ accounts.users
  SparesLogin accounts (some (p, _, _), after) =
      (p.organization_id ≢ o) × (after.users ≡ accounts.users)

  abbrev logged : Answers → User → Accounts → Option (Principal × String × String) × Accounts
  logged a u accounts = (
    some (principal_of accounts u, a.services.token, a.services.csrf),
    record accounts { sessions = new_session a.services session_lifetime u ∷ accounts.sessions },
  )

  login_user-Spares :
      (a : Answers) (secret : String) (u : Option User) (accounts : Accounts)
      → IsUserOutside u
      → SparesLogin accounts (login_user a.services secret session_lifetime u accounts)
  unfolding login_user
  login_user-Spares a secret none accounts h = refl
  login_user-Spares a secret (some u) accounts h =
      if_either (SparesLogin accounts) (not (a.services.verify_password u.password_hash secret))
        {x = (none, accounts)}
        {y = if login_fails a.services accounts then (none, accounts) else logged a u accounts} refl
        (if_either (SparesLogin accounts) (login_fails a.services accounts) {x = (none, accounts)}
          {y = logged a u accounts} refl (h, refl))

  login_reply-Spares :
      (a : Answers) (r : Option (Principal × String × String) × Accounts) (s : Site)
      → SparesLogin s.accounts r
      → Spares o s (login_reply a r s)
  login_reply-Spares a (none, accounts) s same =
      (tt, accounts-IsKept o s accounts (ap (rows_of o (λ (u : User). u.organization_id)) same))
  login_reply-Spares a (some (p, token, csrf), accounts) s (n, same) = (
    n,
    audited o a p n "auth.login" "" s _
        (accounts-IsKept o s accounts (ap (rows_of o (λ (u : User). u.organization_id)) same)),
  )

  -- Login answers with no row of the organization.
  pub login-Spares :
      (a : Answers) (i : Input) (b : Option Body) (s : Site)
      → IsBodyOutside a s b
      → Spares o s (login a i b s)
  unfolding login Accounts.login
  login-Spares a i none s h = (tt, kept o s)
  login-Spares a i (some (credentials email secret)) s h = login_reply-Spares a _ s (
      if_either (SparesLogin s.accounts) (a.services.fails Accounts.find_user) refl
        (login_user-Spares a secret _ s.accounts h))
  login-Spares a i (some _) s h = (tt, kept o s)
