-- ===== src/Accounts/Opening.antt =====
-- What a session token opens (backend/internal/database/store.go: Login, Authenticate).
use restoreguard.Common.{
  ℕ, ◌+◌, ◌<◌, ◌≡◌, refl, sym, ap, ◌∙◌, subst, Bool, false, ◌||◌, not, Option, none, some, List, [],
  ◌∷◌, String, str_eq, eq_refl, eq_iff, find, if_cases, if_ne, All, arith,
}
use restoreguard.Accounts.{
  User, Accounts, Principal, Services, find_session, read_roles, find_user, has_email, principal_of,
  new_session, login_fails, login_user, login, is_holder, joined, authenticate,
}

All-find :
    (P : User → Type 0) (p : User → Bool) (us : List User) {u : User}
    → All P us
    → find p us ≡ some u
    → P u
All-find P p [] a h = cc h
All-find P p (x ∷ xs) {u} (b, bs) h =
    if_cases (λ o. o ≡ some u → P u) (p x) (λ _ k. subst P (some-injective k) b)
      (λ _ k. All-find P p xs bs k) h
  where
    some-injective : {x y : User} → some x ≡ some y → x ≡ y
    some-injective k = cc k

-- `id` is the primary key.
abbrev pub IsKeyed : List User → Type 0
IsKeyed [] = Unit {0}
IsKeyed (u ∷ us) = All (λ (v : User). str_eq u.id v.id ≡ false) us × IsKeyed us

-- The user whom Login found is the one whom the join of the new session finds.
find-is_holder :
    (s : Services) (email : String) (ttl : ℕ) (us : List User) (u : User)
    → IsKeyed us
    → find (has_email s email) us ≡ some u
    → find (is_holder (new_session s ttl u)) us ≡ some u
find-is_holder s email ttl [] u k h = cc h
find-is_holder s email ttl (x ∷ xs) u (k, ks) h =
    if_cases (λ o. o ≡ some u → find (is_holder (new_session s ttl u)) (x ∷ xs) ≡ some u)
      (has_email s email x) (λ e q. ground (arith, e, q, eq_refl x.id, eq_refl x.organization_id))
      (λ e q. ground (
        arith,
        All-find (λ v. str_eq x.id v.id ≡ false) (has_email s email) xs k q,
        find-is_holder s email ttl xs u ks q,
      ))
      h

login_user-lem :
    (s : Services) (password : String) (ttl : ℕ) (o : Option User) (a : Accounts)
    {r : Principal × String × String} {b : Accounts}
    → login_user s password ttl o a ≡ (some r, b)
    → (u : User) × (o ≡ some u)
      × (r ≡ (principal_of a u, s.token, s.csrf))
      × (b ≡ record a { sessions = new_session s ttl u ∷ a.sessions })
unfolding login_user
login_user-lem s password ttl none a h = ground arith
login_user-lem s password ttl (some u) a h =
    let (_, k) = if_ne (not (s.verify_password u.password_hash password)) (λ e. cc e) h in
    let (_, l) = if_ne (login_fails s a) (λ e. cc e) k in (u, refl, cc l, cc l)

-- The join finds the new session and its user.
joined-new_session :
    (s t : Services) (ttl : ℕ) (u : User) (a : Accounts) (hash : String)
    → find (is_holder (new_session s ttl u)) a.users ≡ some u
    → s.sha256 s.token ≡ hash
    → t.now < s.now + ttl
    → joined t a hash (new_session s ttl u) ≡ some (principal_of a u, s.sha256 s.csrf)
joined-new_session s t ttl u a hash found same early =
    ground (arith, found, eq_iff (s.sha256 s.token) hash)

-- After the new session was inserted, its token is authenticated.
authenticate-new_session :
    (s t : Services) (token : String) (ttl : ℕ) (u : User) (a : Accounts)
    → find (is_holder (new_session s ttl u)) a.users ≡ some u
    → s.sha256 s.token ≡ t.sha256 token
    → (t.fails find_session || t.fails read_roles) ≡ false
    → t.now < s.now + ttl
    → authenticate t token (record a { sessions = new_session s ttl u ∷ a.sessions })
      ≡ some (principal_of a u, s.sha256 s.csrf)
unfolding authenticate
authenticate-new_session s t token ttl u a found same ok early = rw (
  ok,
  joined-new_session s t ttl u (record a { sessions = new_session s ttl u ∷ a.sessions })
      (t.sha256 token) found same early,
)

-- The token that a successful Login returns opens its session until it expires: as long as the
-- database answers, Authenticate gives the principal of the Login and the hash of its CSRF token.
pub login-authenticate :
    (s t : Services) (email password : String) (ttl : ℕ) (a b : Accounts) (p : Principal)
    (token csrf : String)
    → IsKeyed a.users
    → login s email password ttl a ≡ (some (p, token, csrf), b)
    → t.sha256 token ≡ s.sha256 token
    → (t.fails find_session || t.fails read_roles) ≡ false
    → t.now < s.now + ttl
    → authenticate t token b ≡ some (p, s.sha256 csrf)
unfolding login
login-authenticate s t email password ttl a b p token csrf k h same ok early =
    let (_, l) = if_ne (s.fails find_user) (λ e. cc e) h in
    let (u, found, result, stored) =
      login_user-lem s password ttl (find (has_email s email) a.users) a l in
    let own : token ≡ s.token = ap (λ (r : Principal × String × String). r.1) result in
    let new =
      authenticate-new_session s t token ttl u a (find-is_holder s email ttl a.users u k found)
        (ap s.sha256 (sym own) ∙ sym same) ok early in
    subst (λ c. authenticate t token c ≡ some (p, s.sha256 csrf)) (sym stored)
      (new ∙ cc (result, ap s.sha256 (ap (λ (r : Principal × String × String). r.2) result)))
