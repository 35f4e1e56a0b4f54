-- ===== src/Api/Isolation/Views.antt =====
-- The views and the handlers of sessions, for another organization.
use restoreguard.Common.{
  ◌≡◌, refl, sym, ap, ◌∙◌, ◌⊎◌, inl, inr, ◌≢◌, ℕ, Bool, true, false, not, Option, none, some, List,
  take, String, str_eq, eq_iff, find, if_cases, if_either, All, All-weaken, arith,
}
use restoreguard.Accounts
use restoreguard.Accounts.{
  User, Accounts, Principal, authenticate, change_password, change_user, change_hashed,
  write_password, set_password, change_fails, is_user, read_password,
}
use restoreguard.Records.Assets.{database_error}
use restoreguard.Api.Site.{Site, AuditRow, SnapshotRow, Body, passwords, Input, Answers}
use restoreguard.Api.Tenants.{rows_of, IsForeign, rows_of-map, KeepsOwn}
use restoreguard.Records.Pages.{selected}
use restoreguard.Records.Pages.Cover.{IsSelected, selected-All, All-take, All-filter}
use restoreguard.Api.Views.{overview, is_wanted, snapshots, simple_rows, evidence, audit}
use restoreguard.Api.Sessions.{revoke_session, logout, password_reply, password_with, password}
use restoreguard.Api.Isolation.{Spares, kept, db_failure-Hides, audited, accounts-IsKept}

module _ (o : String) (a : Answers) (p : Principal) (n : p.organization_id ≢ o) where
  pub overview-Spares : (i : Input) (s : Site) → Spares o s (overview a p i s)
  unfolding overview
  overview-Spares i s =
      if_either (Spares o s) a.query_fails (db_failure-Hides o database_error, kept o s)
        (tt, kept o s)

  -- Selected rows are foreign, and so are the first of them.
  selected-Foreign :
      (keep : SnapshotRow → Bool) (rows : List SnapshotRow) (m : ℕ)
      → All (IsForeign o (λ (r : SnapshotRow). r.organization_id)) (
          take m (
            take 100 (
              selected
                (λ (r : SnapshotRow). r.organization_id)
                (λ (r : SnapshotRow). r.created_at)
                keep
                p.organization_id
                rows)))
  selected-Foreign keep rows m = All-take _ m _ (
      All-take _ 100 _ (
        All-weaken (IsSelected (λ (r : SnapshotRow). r.organization_id) keep p.organization_id)
          (IsForeign o (λ (r : SnapshotRow). r.organization_id)) (λ r c e. n (sym c.0 ∙ e)) _
          (selected-All (λ (r : SnapshotRow). r.organization_id) (λ (r : SnapshotRow). r.created_at)
            keep p.organization_id rows)))

  pub snapshots-Spares : (i : Input) (s : Site) → Spares o s (snapshots a p i s)
  unfolding snapshots
  snapshots-Spares i s =
      if_either (Spares o s) a.query_fails (db_failure-Hides o database_error, kept o s)
        (selected-Foreign (is_wanted i) s.snapshots a.arrived, kept o s)

  pub evidence-Spares : (i : Input) (s : Site) → Spares o s (evidence a p i s)
  unfolding evidence simple_rows
  evidence-Spares i s =
      if_either (Spares o s) a.query_fails (db_failure-Hides o database_error, kept o s)
        (selected-Foreign (λ r. true) s.evidence a.arrived, kept o s)

  pub audit-Spares : (i : Input) (s : Site) → Spares o s (audit a p i s)
  unfolding audit simple_rows
  audit-Spares i s =
      if_either (Spares o s) a.query_fails (db_failure-Hides o database_error, kept o s)
        (
          All-take _ a.arrived _ (
              All-take _ 100 _ (
                All-weaken (λ (r : AuditRow). str_eq r.organization_id p.organization_id ≡ true)
                  (IsForeign o (λ (r : AuditRow). r.organization_id))
                  (λ r c e. n (sym ((eq_iff r.organization_id p.organization_id).0 c) ∙ e)) _
                  (All-filter (λ (r : AuditRow). str_eq r.organization_id p.organization_id)
                    s.audits))),
          kept o s,
        )

  revoke-users :
      (session : Option String) (accounts : Accounts)
      → (revoke_session a session accounts).users ≡ accounts.users
  unfolding Accounts.revoke
  revoke-users none accounts = refl
  revoke-users (some token) accounts =
      if_either (λ (r : Bool × Accounts). r.1.users ≡ accounts.users)
        (a.services.fails Accounts.revoke_session) refl refl

  pub logout-Spares : (i : Input) (s : Site) → Spares o s (logout a p i s)
  unfolding logout
  logout-Spares i s = (
    tt,
    audited o a p n "auth.logout" "" s _ (
        accounts-IsKept o s (revoke_session a i.session s.accounts)
          (ap (rows_of o (λ (r : User). r.organization_id)) (revoke-users i.session s.accounts))),
  )

  set_password-Keeps :
      (hash : String) → KeepsOwn o (λ (u : User). u.organization_id) (set_password p hash)
  set_password-Keeps hash u =
      if_cases
        (λ x.
          (x ≡ u)
          ⊎ (IsForeign o (λ (u : User). u.organization_id) u
              × IsForeign o (λ (u : User). u.organization_id) x))
        (is_user p u)
        (λ h.
          let foreign : u.organization_id ≢ o = λ e. n (sym (is_user-owner h) ∙ e) in
          inr (foreign, foreign))
        (λ _. inl refl)
    where
      is_user-owner : is_user p u ≡ true → u.organization_id ≡ p.organization_id
      is_user-owner h = ground (arith, h, eq_iff u.organization_id p.organization_id)

  abbrev SameUsers : Accounts → Bool × Accounts → Type 0
  SameUsers accounts r =
      rows_of o (λ (u : User). u.organization_id) r.1.users
      ≡ rows_of o (λ (u : User). u.organization_id) accounts.users

  hashed-users :
      (hash : Option String) (accounts : Accounts)
      → SameUsers accounts (change_hashed a.services p hash accounts)
  unfolding change_hashed
  hashed-users none accounts = refl
  hashed-users (some hash) accounts =
      if_either (SameUsers accounts) (change_fails a.services) refl (
        rows_of-map o (λ (u : User). u.organization_id) (set_password p hash) accounts.users
          (set_password-Keeps hash))

  changed-users :
      (current next : String) (u : Option User) (accounts : Accounts)
      → SameUsers accounts (change_user a.services p current next u accounts)
  unfolding change_user
  changed-users current next none accounts = refl
  changed-users current next (some u) accounts =
      if_either (SameUsers accounts) (not (a.services.verify_password u.password_hash current)) refl
        (hashed-users (a.services.hash_password next) accounts)

  password_reply-Spares :
      (r : Bool × Accounts) (s : Site) → SameUsers s.accounts r → Spares o s (password_reply r s)
  password_reply-Spares (true, accounts) s same = (tt, accounts-IsKept o s accounts same)
  password_reply-Spares (false, accounts) s same = (tt, accounts-IsKept o s accounts same)

  password_with-Spares : (b : Option Body) (s : Site) → Spares o s (password_with a p b s)
  unfolding password_with change_password
  password_with-Spares none s = (tt, kept o s)
  password_with-Spares (some (passwords current next)) s =
      password_reply-Spares (change_password a.services p current next s.accounts) s (
        if_either (SameUsers s.accounts) (a.services.fails read_password) refl
          (changed-users current next (find (is_user p) s.accounts.users) s.accounts))
  password_with-Spares (some _) s = (tt, kept o s)

  pub password-Spares : (i : Input) (s : Site) → Spares o s (password a p i s)
  unfolding password
  password-Spares i s = password_with-Spares i.body s
