-- ===== src/Api/Authority/Actions.antt =====
-- What the guard of backend/internal/httpapi/middleware.go adds to a handler.
use restoreguard.Common.{
  ◌≡◌, refl, sym, ◌⊎◌, inl, inr, true, false, String, eq_iff, arith, Bool-cases,
}
use restoreguard.Accounts.{Principal}
use restoreguard.Access.Guard.{
  Visitor, served, Outcome, require, unauthenticated, invalid_session, forbidden, csrf_invalid,
  origin_invalid,
}
use restoreguard.Access.Privilege.{MayPass, require_iff}
use restoreguard.Api.Site.{Site, Input, Answers, Response, Handler, is_get}
use restoreguard.Api.Routes.{
  Route, Action, guarded, server_of, request_of, admit, act, method_matches,
}
use restoreguard.Api.Authority.Parts.{
  Part, permission_of, IsSame, read_permission_of, IsSame-refl, IsSame-tables, Only,
}

-- The session of the request is live and its principal has the permission, and the request is
-- genuine, for a POST; or it is a HEAD request under the permission to read.
abbrev pub MayChange : Part → Answers → Input → Site → Type 0
MayChange part a i s =
    (v : Visitor) × (((i.method ≡ "POST")
        × MayPass (server_of a s) (permission_of part) (request_of i) v i.session)
      ⊎ ((i.method ≡ "HEAD")
          × MayPass (server_of a s) (read_permission_of part) (request_of i) v i.session))

abbrev pub Rightful : Answers → Input → Site → Response × Site → Type 0
Rightful a i s r = (part : Part) → IsSame part r.1.tables s.tables ⊎ MayChange part a i s

abbrev pub IsCareful : String → Action → Type 0
IsCareful method action =
    (a : Answers) (i : Input) (s : Site)
    → method_matches method i.method ≡ true
    → Rightful a i s (act action a i s)

abbrev pub IsCarefulRoute : Route → Type 0
IsCarefulRoute r = IsCareful r.method r.action

-- The multiplexer takes no other method for a pattern of GET.
get-head :
    (method : String) → method_matches "GET" method ≡ true → is_get method ≡ false → method ≡ "HEAD"
get-head method m n =
    ground (arith, m, n, eq_iff "GET" method, eq_iff method "GET", eq_iff method "HEAD")

post-post : (method : String) → method_matches "POST" method ≡ true → method ≡ "POST"
post-post method m = sym (ground (arith, m, eq_iff "POST" method))

module _ (permission : String) (handler : Handler) where
  -- What holds of each handler's run holds of the guarded run.
  admit-Rightful :
      (a : Answers) (i : Input) (s : Site)
      → ((v : Visitor)
          → MayPass (server_of a s) permission (request_of i) v i.session
          → Rightful a i s (handler a v.principal i s))
      → (o : Outcome) → require (server_of a s) permission (request_of i) ≡ o
      → Rightful a i s (admit handler a i s o)
  admit-Rightful a i s h (served v) e =
      h v ((require_iff (server_of a s) permission (request_of i) v).0 e)
  admit-Rightful a i s h unauthenticated e = λ part. inl (IsSame-refl part s.tables)
  admit-Rightful a i s h invalid_session e = λ part. inl (IsSame-refl part s.tables)
  admit-Rightful a i s h forbidden e = λ part. inl (IsSame-refl part s.tables)
  admit-Rightful a i s h csrf_invalid e = λ part. inl (IsSame-refl part s.tables)
  admit-Rightful a i s h origin_invalid e = λ part. inl (IsSame-refl part s.tables)

  pub viewer-IsCareful :
      (method : String)
      → ((a : Answers) (p : Principal) (i : Input) (s : Site)
          → (handler a p i s).1.tables ≡ s.tables)
      → IsCareful method (guarded permission handler)
  unfolding act
  viewer-IsCareful method same a i s m =
      admit-Rightful a i s (λ v _ part. inl (IsSame-tables part (same a v.principal i s)))
        (require (server_of a s) permission (request_of i)) refl

module _ (q : Part) (handler : Handler)
    (only : (a : Answers) (p : Principal) (i : Input) (s : Site) → Only q s (handler a p i s)) where
  pub writer-IsCareful : IsCareful "POST" (guarded (permission_of q) handler)
  unfolding act
  writer-IsCareful a i s m =
      admit-Rightful (permission_of q) handler a i s
        (λ v may part. elim (only a v.principal i s part) [
          | inl same ↦ inl same
          | inr e ↦ inr (v, inl (post-post i.method m, rw e may))
        ])
        (require (server_of a s) (permission_of q) (request_of i)) refl

  pub reader-IsCareful :
      ((a : Answers) (p : Principal) (i : Input) (s : Site)
        → is_get i.method ≡ true
        → (handler a p i s).1.tables ≡ s.tables)
      → IsCareful "GET" (guarded (read_permission_of q) handler)
  unfolding act
  reader-IsCareful same a i s m =
      admit-Rightful (read_permission_of q) handler a i s
        (λ v may part. elim (Bool-cases (is_get i.method)) [
          | inl g ↦ inl (IsSame-tables part (same a v.principal i s g))
          | inr n ↦ elim (only a v.principal i s part) [
            | inl kept ↦ inl kept
            | inr e ↦ inr (v, inr (get-head i.method m n, rw e may))
          ]
        ])
        (require (server_of a s) (read_permission_of q) (request_of i)) refl
