-- ===== src/Access/Privilege.antt =====
-- Who gets through the guard.
use restoreguard.Common.{
  ◌≡◌, refl, ◌↔◌, ◌⊎◌, true, false, Option, none, some, List, [], ◌∷◌, eq_iff, arith, Any, any,
  Bool, Bool-cases, String, str_eq, inl, inr, ◌≢◌, subst, sym,
}
use restoreguard.Access.Roles.{role_permissions, grants, allowed}
use restoreguard.Access.Guard.{
  Request, Visitor, Server, served, is_safe_method, bad_token, bad_origin, require_principal,
  require_session, require,
}

-- The text is this name.
abbrev pub Named : String → String → Type 0
Named name s = str_eq s name ≡ true

-- What every role may read.
abbrev pub IsReading : String → Type 0
IsReading p =
    Named p "backup_source.read"
    ⊎ Named p "recovery_policy.read"
    ⊎ Named p "drill.read"
    ⊎ Named p "evidence.read"

-- The roles that may read and are neither owner nor administrator.
abbrev pub IsRole : String → Type 0
IsRole r = Named "RECOVERY_ENGINEER" r ⊎ Named "OPERATOR" r ⊎ Named "AUDITOR" r ⊎ Named "VIEWER" r

-- Who may do what, permission by permission: owners and administrators may do everything, every other
-- role may read, and the rest is for recovery engineers, operators and auditors.
abbrev pub MayDo : String → String → Type 0
MayDo p r =
    Named "OWNER" r
    ⊎ Named "ADMIN" r
    ⊎ (IsReading p × IsRole r)
    ⊎ (Named p "drill.run" × (Named "RECOVERY_ENGINEER" r ⊎ Named "OPERATOR" r))
    ⊎ (Named p "report.export" × (Named "RECOVERY_ENGINEER" r ⊎ Named "AUDITOR" r))
    ⊎ (Named p "audit.read" × Named "AUDITOR" r)
    ⊎ ((Named p "backup_source.manage" ⊎ Named p "recovery_policy.manage")
        × Named "RECOVERY_ENGINEER" r)

abbrev IsRight : String → String → Type 0
IsRight p r = (grants p r ≡ true) ↔ MayDo p r

module _ (p : String) where
  owner-IsRight : IsRight p "OWNER"
  unfolding grants role_permissions
  owner-IsRight = (λ _. inl refl, λ _. refl)

  admin-IsRight : IsRight p "ADMIN"
  unfolding grants role_permissions
  admin-IsRight = (λ _. inr (inl refl), λ _. refl)

  engineer-IsRight : IsRight p "RECOVERY_ENGINEER"
  unfolding grants role_permissions
  engineer-IsRight = ground arith

  operator-IsRight : IsRight p "OPERATOR"
  unfolding grants role_permissions
  operator-IsRight = ground arith

  auditor-IsRight : IsRight p "AUDITOR"
  unfolding grants role_permissions
  auditor-IsRight = ground arith

  viewer-IsRight : IsRight p "VIEWER"
  unfolding grants role_permissions
  viewer-IsRight = ground arith

  other-IsRight :
      (r : String)
      → (str_eq r "OWNER" ≡ false)
      → (str_eq r "ADMIN" ≡ false)
      → (str_eq r "RECOVERY_ENGINEER" ≡ false)
      → (str_eq r "OPERATOR" ≡ false)
      → (str_eq r "AUDITOR" ≡ false)
      → (str_eq r "VIEWER" ≡ false)
      → IsRight p r
  unfolding grants role_permissions
  other-IsRight r owner admin engineer operator auditor viewer = ground arith

  -- A text is the name, or its test for the name fails.
  split_name :
      (name r : String) → IsRight p name → ((str_eq r name ≡ false) → IsRight p r) → IsRight p r
  split_name name r named other = elim (Bool-cases (str_eq r name)) [
    | inl e ↦ subst (IsRight p) (sym ((eq_iff r name).0 e)) named
    | inr e ↦ other e
  ]

  grants_iff : (r : String) → IsRight p r
  grants_iff r = split_name "OWNER" r owner-IsRight (λ owner.
      split_name "ADMIN" r admin-IsRight (λ admin.
        split_name "RECOVERY_ENGINEER" r engineer-IsRight (λ engineer.
          split_name "OPERATOR" r operator-IsRight (λ operator.
            split_name "AUDITOR" r auditor-IsRight (λ auditor.
              split_name "VIEWER" r viewer-IsRight
                (λ viewer. other-IsRight r owner admin engineer operator auditor viewer))))))

any_iff :
    (f : String → Bool) (P : String → Type 0)
    → ((r : String) → (f r ≡ true) ↔ P r)
    → (roles : List String) → (any f roles ≡ true) ↔ Any P roles
any_iff f P each [] = ground arith
any_iff f P each (r ∷ rs) = ground (arith, each r, any_iff f P each rs)

pub allowed_iff :
    (roles : List String) (permission : String)
    → (allowed roles permission ≡ true) ↔ Any (MayDo permission) roles
unfolding allowed
allowed_iff roles permission =
    any_iff (grants permission) (MayDo permission) (grants_iff permission) roles

-- A request that may change something shows that it comes from the program's own page: it has the
-- token of the session, and no origin or the configured one.
abbrev IsGenuine : Server → Visitor → Request → Type 0
IsGenuine s p r =
    ((r.method ≡ "GET") ⊎ (r.method ≡ "HEAD") ⊎ (r.method ≡ "OPTIONS"))
    ⊎ ((r.csrf_token ≢ "")
        × (s.sha256 r.csrf_token ≡ p.csrf_hash)
        × ((r.origin ≡ "") ⊎ (s.equal_fold r.origin s.cors_origin ≡ true)))

safe_iff :
    (method : String)
    → (is_safe_method method ≡ true) ↔ ((method ≡ "GET") ⊎ (method ≡ "HEAD") ⊎ (method ≡ "OPTIONS"))
safe_iff method = ground (arith, eq_iff method "GET", eq_iff method "HEAD", eq_iff method "OPTIONS")

shown_iff :
    (s : Server) (p : Visitor) (r : Request)
    → ((is_safe_method r.method ≡ true) ⊎ ((bad_token s p r ≡ false) × (bad_origin s r ≡ false)))
      ↔ IsGenuine s p r
shown_iff s p r = ground (
  arith,
  safe_iff r.method,
  eq_iff r.csrf_token "",
  eq_iff (s.sha256 r.csrf_token) p.csrf_hash,
  eq_iff r.origin "",
)

coded_principal_iff :
    (s : Server) (permission : String) (r : Request) (o : Option Visitor) (p : Visitor)
    → (require_principal s permission r o ≡ served p) ↔ (
        (o ≡ some p)
        × ((permission ≡ "") ⊎ (allowed p.principal.roles permission ≡ true))
        × ((is_safe_method r.method ≡ true)
            ⊎ ((bad_token s p r ≡ false) × (bad_origin s r ≡ false))))
unfolding require_principal
coded_principal_iff s permission r none p = ground arith
coded_principal_iff s permission r (some q) p = ground (arith, eq_iff permission "")

served_principal_iff :
    (s : Server) (permission : String) (r : Request) (o : Option Visitor) (p : Visitor)
    → (require_principal s permission r o ≡ served p) ↔ (
        (o ≡ some p)
        × ((permission ≡ "") ⊎ Any (MayDo permission) p.principal.roles)
        × IsGenuine s p r)
served_principal_iff s permission r o p =
    let coded = coded_principal_iff s permission r o p in
    let may = allowed_iff p.principal.roles permission in
    let genuine = shown_iff s p r in
    (
      λ h.
          let (live, held, shown) = coded.0 h in
          (live, elim held [ inl e ↦ inl e | inr e ↦ inr (may.0 e) ], genuine.0 shown),
      λ (live, held, shown).
          coded.1 (live, elim held [ inl e ↦ inl e | inr e ↦ inr (may.1 e) ], genuine.1 shown),
    )

module _ (s : Server) (permission : String) (r : Request) (p : Visitor) where
  -- The session is live and belongs to the principal, who has the permission, and the request is
  -- genuine.
  abbrev pub MayPass : Option String → Type 0
  MayPass session =
      (token : String) × (session ≡ some token)
      × (s.authenticate token ≡ some p)
      × ((permission ≡ "") ⊎ Any (MayDo permission) p.principal.roles)
      × IsGenuine s p r

  served_session_iff :
      (session : Option String)
      → (require_session s permission r session ≡ served p) ↔ MayPass session
  unfolding require_session
  served_session_iff none = (λ h. cc h, λ (token, e, _, _, _). cc e)
  served_session_iff (some t) =
      let both = served_principal_iff s permission r (s.authenticate t) p in
      (
        λ h. let (live, may, genuine) = both.0 h in (t, refl, live, may, genuine),
        λ (token, e, live, may, genuine). both.1 (cc (e, live), may, genuine),
      )

  -- A handler is called for a principal exactly when the request carries a session cookie, the
  -- session is live and is the principal's, a role of the principal may do what the handler asks for
  -- (by the table above, which is by permission; a handler may ask for none), and the request is a
  -- GET, HEAD or OPTIONS, or has a CSRF token whose hash is the session's and no origin but the
  -- configured one.
  pub require_iff : (require s permission r ≡ served p) ↔ MayPass r.session
  unfolding require
  require_iff = served_session_iff r.session
