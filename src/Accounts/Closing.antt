-- ===== src/Accounts/Closing.antt =====
-- What closes a session (backend/internal/database/store.go: ChangePassword, Revoke).
use restoreguard.Common.{
  ◌≡◌, refl, sym, ap, subst, Bool, true, false, ◌&&◌, ◌||◌, not, Option, none, some, List, [], ◌∷◌,
  map, String, str_eq, eq_iff, find, first, first_or, if_cases, if_either, if_ne, All, arith,
}
use restoreguard.Accounts.{
  User, Session, Accounts, Principal, Services, find_session, read_roles, has_hash, is_live,
  is_holder, with_csrf, joined, authenticate, close_token, close_own, revoke, is_user, is_own,
  write_password, change_fails, read_password, revoke_session, change_hashed, change_user,
  change_password,
}

find-lem : (p : User → Bool) (us : List User) {u : User} → find p us ≡ some u → p u ≡ true
find-lem p [] h = cc h
find-lem p (x ∷ xs) {u} h =
    let rest : find p xs ≡ some u → p u ≡ true = find-lem p xs in ground (arith, h)

first-none :
    {B : Type 0} (f : Session → Option B) (ss : List Session)
    → All (λ s. f s ≡ none) ss
    → first f ss ≡ none
first-none f [] h = refl
first-none f (x ∷ xs) (h, hs) = rw h (first-none f xs hs)

-- No session gives this user.
abbrev pub Shuts : Principal → Option (Principal × String) → Type 0
Shuts p none = Unit {0}
Shuts p (some (q, csrf)) =
    (str_eq q.user_id p.user_id && str_eq q.organization_id p.organization_id) ≡ false

first-Shuts :
    {X : Type 0} (p : Principal) (f : X → Option (Principal × String)) (xs : List X)
    → All (λ x. Shuts p (f x)) xs
    → Shuts p (first f xs)
first-Shuts p f [] h = tt
first-Shuts p f (x ∷ xs) (h, hs) = step (f x) h (first-Shuts p f xs hs)
  where
    step :
        (o : Option (Principal × String))
        → Shuts p o
        → Shuts p (first f xs)
        → Shuts p (first_or o (first f xs))
    step none h r = r
    step (some q) h r = h

joined-revoked :
    (t : Services) (a : Accounts) (hash : String) (session : Session)
    → session.revoked ≡ true
    → joined t a hash session ≡ none
joined-revoked t a hash session h = ground arith

Shuts-holder :
    (p : Principal) (a : Accounts) (session : Session) (u : User)
    → is_own p session ≡ false
    → is_holder session u ≡ true
    → Shuts p (with_csrf a session (some u))
Shuts-holder p a session u n h =
    ground (arith, eq_iff u.id session.user_id, eq_iff u.organization_id session.organization_id)

-- A session of another user gives another user.
foreign-Shuts :
    (t : Services) (p : Principal) (a : Accounts) (hash : String) (session : Session)
    → is_own p session ≡ false
    → Shuts p (joined t a hash session)
foreign-Shuts t p a hash session n =
    if_either (Shuts p) (is_live t hash session) (held (find (is_holder session) a.users) refl) tt
  where
    held :
        (o : Option User) → find (is_holder session) a.users ≡ o → Shuts p (with_csrf a session o)
    held none e = tt
    held (some u) e = Shuts-holder p a session u n (find-lem (is_holder session) a.users e)

closed-Shuts :
    (t : Services) (p : Principal) (a : Accounts) (hash : String) (session : Session)
    → Shuts p (joined t a hash (close_own p session))
closed-Shuts t p a hash session =
    if_cases (λ x. Shuts p (joined t a hash x)) (is_own p session)
      (λ _.
        subst (Shuts p) (sym (joined-revoked t a hash (record session { revoked = true }) refl)) tt)
      (λ n. foreign-Shuts t p a hash session n)

closed-All :
    (t : Services) (p : Principal) (a : Accounts) (hash : String) (ss : List Session)
    → All (λ x. Shuts p (joined t a hash x)) (map (close_own p) ss)
closed-All t p a hash [] = tt
closed-All t p a hash (x ∷ xs) = (closed-Shuts t p a hash x, closed-All t p a hash xs)

authenticate-write_password :
    (t : Services) (p : Principal) (token hash : String) (a : Accounts)
    → Shuts p (authenticate t token (write_password p hash a))
unfolding authenticate
authenticate-write_password t p token hash a =
    if_either (Shuts p) (t.fails find_session || t.fails read_roles) tt (
      first-Shuts p (joined t (write_password p hash a) (t.sha256 token)) _
        (closed-All t p (write_password p hash a) (t.sha256 token) a.sessions))

change_user-lem :
    (s : Services) (p : Principal) (current next : String) (o : Option User) (a b : Accounts)
    → change_user s p current next o a ≡ (false, b)
    → (hash : String) × (b ≡ write_password p hash a)
unfolding change_user change_hashed
change_user-lem s p current next none a b h = cc h
change_user-lem s p current next (some u) a b h =
    let (_, k) = if_ne (not (s.verify_password u.password_hash current)) (λ e. cc e) h in
    hashed (s.hash_password next) k
  where
    hashed :
        (o : Option String)
        → change_hashed s p o a ≡ (false, b)
        → (hash : String) × (b ≡ write_password p hash a)
    hashed none k = cc k
    hashed (some hash) k = let (_, l) = if_ne (change_fails s) (λ e. cc e) k in (hash, cc l)

-- After a ChangePassword that succeeded, no session token that was given before opens anything as
-- the user: Authenticate gives nobody or another user, whatever the token and the time.
pub change_password-Shuts :
    (s t : Services) (p : Principal) (current next token : String) (a b : Accounts)
    → change_password s p current next a ≡ (false, b)
    → Shuts p (authenticate t token b)
unfolding change_password
change_password-Shuts s t p current next token a b h =
    let (_, k) = if_ne (s.fails read_password) (λ e. cc e) h in
    let (hash, e) = change_user-lem s p current next (find (is_user p) a.users) a b k in
    subst (λ c. Shuts p (authenticate t token c)) (sym e)
      (authenticate-write_password t p token hash a)

revoked-All :
    (t : Services) (a : Accounts) (hash : String) (ss : List Session)
    → All (λ x. joined t a hash x ≡ none) (map (close_token hash) ss)
revoked-All t a hash [] = tt
revoked-All t a hash (x ∷ xs) = (
  if_cases (λ y. joined t a hash y ≡ none) (has_hash hash x && not x.revoked)
      (λ _. joined-revoked t a hash (record x { revoked = true }) refl) (λ n. ground (arith, n)),
  revoked-All t a hash xs,
)

authenticate-revoked :
    (t : Services) (token hash : String) (a : Accounts)
    → t.sha256 token ≡ hash
    → authenticate t token (record a { sessions = map (close_token hash) a.sessions }) ≡ none
unfolding authenticate
authenticate-revoked t token hash a same =
    if_either (λ o. o ≡ none) (t.fails find_session || t.fails read_roles) refl
      (first-none _ _ (
        subst
          (λ h.
            All
              (λ x. joined t (record a { sessions = map (close_token hash) a.sessions }) h x ≡ none)
              (map (close_token hash) a.sessions))
          (sym same)
          (revoked-All t (record a { sessions = map (close_token hash) a.sessions }) hash
            a.sessions)))

-- After a Revoke that succeeded, the token opens nothing, at any time.
pub revoke-authenticate :
    (s t : Services) (token : String) (a b : Accounts)
    → revoke s token a ≡ (false, b)
    → t.sha256 token ≡ s.sha256 token
    → authenticate t token b ≡ none
unfolding revoke
revoke-authenticate s t token a b h same =
    let (_, k) = if_ne (s.fails revoke_session) (λ e. cc e) h in
    subst (λ c. authenticate t token c ≡ none) (ap (λ (r : Bool × Accounts). r.1) k)
      (authenticate-revoked t token (s.sha256 token) a same)
