-- ===== src/Accounts/Examples.antt =====
-- The theorems on users and sessions at a concrete account.
use restoreguard.Common.{◌≡◌, refl, Bool, true, false, none, some, [], ◌∷◌, str_eq, arith}
use restoreguard.Accounts.{
  User, Accounts, Principal, Call, Services, roles, login, authenticate, revoke, change_password,
}
use restoreguard.Accounts.Bootstrap.{Installation, Answers, bootstrap_demo}
use restoreguard.Accounts.Bootstrap.Again.{unstamped_tables, bootstrap_demo-again}
use restoreguard.Accounts.Opening.{login-authenticate}
use restoreguard.Accounts.Closing.{Shuts, change_password-Shuts, revoke-authenticate}

abbrev no_call : Call → Bool
no_call c = false

-- Stand-ins for the hash functions, which give the text itself.
abbrev pub services : Services
services = record {
  fails = no_call;
  sha256 = λ text. text;
  lower = λ text. text;
  verify_password = λ encoded password. str_eq encoded password;
  hash_password = λ password. some password;
  token = "t1";
  csrf = "c1";
  now = 1000;
}

abbrev ann : User
ann = record {
  id = "u1";
  organization_id = "acme";
  email = "ann@acme.example";
  display_name = "Ann";
  password_hash = "correct horse battery";
  active = true;
}

abbrev accounts : Accounts
accounts = record {
  users = ann ∷ [];
  role_rows = record { user_id = "u1"; organization_id = "acme"; role = "OPERATOR" } ∷ [];
  sessions = [];
}

abbrev pub ann_principal : Principal
ann_principal = record {
  user_id = "u1";
  organization_id = "acme";
  email = "ann@acme.example";
  display_name = "Ann";
  roles = "OPERATOR" ∷ [];
}

abbrev pub logged_in : Accounts
logged_in = record accounts {
  sessions =
      record {
        organization_id = "acme";
        user_id = "u1";
        token_hash = "t1";
        csrf_hash = "c1";
        expires_at = 4600;
        revoked = false;
      }
      ∷ [];
}

login-ok :
    login services "ann@acme.example" "correct horse battery" 3600 accounts
    ≡ (some (ann_principal, "t1", "c1"), logged_in)
unfolding login roles
login-ok = refl

login-authenticate_example :
    authenticate services "t1" logged_in ≡ some (ann_principal, services.sha256 "c1")
login-authenticate_example =
    login-authenticate services services "ann@acme.example" "correct horse battery" 3600 accounts
      logged_in ann_principal "t1" "c1" (tt, tt) login-ok refl refl (omega arith)

abbrev changed : Bool × Accounts
changed =
    change_password services ann_principal "correct horse battery" "a longer password" logged_in

changed-ok : changed ≡ (false, changed.1)
unfolding change_password
changed-ok = refl

change_password-Shuts_example : Shuts ann_principal (authenticate services "t1" changed.1)
change_password-Shuts_example =
    change_password-Shuts services services ann_principal "correct horse battery"
      "a longer password" "t1" logged_in changed.1 changed-ok

abbrev revoked : Bool × Accounts
revoked = revoke services "t1" logged_in

revoked-ok : revoked ≡ (false, revoked.1)
unfolding revoke
revoked-ok = refl

revoke-authenticate_example : authenticate services "t1" revoked.1 ≡ none
revoke-authenticate_example =
    revoke-authenticate services services "t1" logged_in revoked.1 revoked-ok refl

abbrev answers : Answers
answers = record {
  fails = λ call. false;
  hash_password = λ password. some password;
  organization_id = "o1";
  user_id = "u1";
  asset_id = "a1";
  source_id = "s1";
  policy_id = "p1";
  now = 100;
}

abbrev later_answers : Answers
later_answers = record answers { organization_id = "o2"; user_id = "u2"; now = 200 }

abbrev nothing : Installation
nothing = record {
  organizations = [];
  users = [];
  role_rows = [];
  assets = [];
  sources = [];
  links = [];
  policies = [];
}

abbrev installed : Installation
installed = (bootstrap_demo answers "ann@acme.example" "a long password" nothing).1

installed-ok :
    bootstrap_demo answers "ann@acme.example" "a long password" nothing ≡ (false, installed)
unfolding bootstrap_demo
installed-ok = refl

bootstrap_demo-again_example :
    unstamped_tables (bootstrap_demo later_answers "ann@acme.example" "another" installed).1
    ≡ unstamped_tables installed
bootstrap_demo-again_example =
    bootstrap_demo-again answers later_answers "ann@acme.example" "a long password" "another"
      nothing installed (λ e. cc e) (λ e. cc e) installed-ok
