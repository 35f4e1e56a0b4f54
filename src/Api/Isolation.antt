-- ===== src/Api/Isolation.antt =====
-- What a request shows and changes of an organization that is not its own.
pub mod Rows
pub mod Runs
pub mod Views
pub mod Logins
pub mod Requests
use restoreguard.Common.{
  ◌≡◌, refl, sym, ap, ◌∙◌, subst, ◌⊎◌, inl, inr, ◌≢◌, ℕ, Bool, true, false, ◌&&◌, ◌||◌, not, Option,
  none, some, List, [], ◌∷◌, ◌++◌, map, take, String, str_eq, eq_iff, any, find, filter,
  if◌then◌else◌, if_ne, if_cases, if_either, All, All-append, All-weaken, find-All, arith,
}
use restoreguard.Domain.Recovery.{Time}
use restoreguard.Accounts
use restoreguard.Accounts.{
  User, Accounts, Principal, authenticate, change_password, change_user, change_hashed,
  write_password, set_password, change_fails, is_user, read_password,
}
use restoreguard.Records.Assets.{
  Asset, Source, Policy, Reply, error, ok, QueryError, no_rows, database_error, invalid_target,
  create_asset, get_asset, create_source, discover_source, create_policy,
}
use restoreguard.Records.Pages.{list_rows}
use restoreguard.Records.Drills.{
  DrillRow, DrillItem, Tables, create_drill, list_drills, get_drill, cancel_listed,
}
use restoreguard.Hub.{EventHub}
use restoreguard.Pool
use restoreguard.Pool.{WorkerPool, submit}
use restoreguard.Api.Site.{
  Site, AuditRow, SnapshotRow, Body, an_asset, a_source, a_policy, a_drill, credentials, passwords,
  Input, Answers, Content, nothing, failure, status_text, logged_in, user_shown, counts,
  assets_shown, sources_shown, policies_shown, drills_shown, drill_made, report_shown,
  snapshots_shown, audits_shown, roles_shown, streamed, Response, Handler, reply, bad_input,
  db_failure, write_audit, is_get,
}
use restoreguard.Api.Tenants
use restoreguard.Api.Tenants.{
  rows_of, IsForeign, HidesReply, rows_of-foreign, rows_of-map, KeepsOwn, SparesAssets,
  SparesSources, SparesPolicies, HidesItem, create_asset-Spares, create_source-Spares,
  create_policy-Spares, get_asset-Hides, discover_source-rows, create_drill-Spares,
  cancel_listed-rows, list_rows-Foreign, get_drill-Hides,
}
use restoreguard.Api.Tenant.{
  list_reply, one_reply, list_assets, make_asset, asset_reply, is_kind, is_criticality, set_assets,
  source_reply, is_source_kind, set_sources, discover_reply, policy_reply, is_schedule,
  set_policies, assets, asset, list_sources, make_source, sources, discover, list_policies,
  make_policy, policies,
}

module _ (o : String) where
  -- Nothing of the organization is shown.
  abbrev pub Hides : Content → Type 0
  Hides (logged_in p csrf) = p.organization_id ≢ o
  Hides (user_shown p) = p.organization_id ≢ o
  Hides (assets_shown rows) = All (IsForeign o (λ (r : Asset). r.organization_id)) rows
  Hides (sources_shown rows) = All (IsForeign o (λ (r : Source). r.organization_id)) rows
  Hides (policies_shown rows) = All (IsForeign o (λ (r : Policy). r.organization_id)) rows
  Hides (drills_shown rows) = All (IsForeign o (λ (r : DrillRow). r.organization_id)) rows
  Hides (drill_made item created) = item.organization_id ≢ o
  Hides (report_shown d) = d.organization_id ≢ o
  Hides (snapshots_shown rows) = All (IsForeign o (λ (r : SnapshotRow). r.organization_id)) rows
  Hides (audits_shown rows) = All (IsForeign o (λ (r : AuditRow). r.organization_id)) rows
  Hides _ = Unit {0}

  -- The rows of the organization are the same.
  pub record IsKept (s t : Site) : Type 0 where
    pub assets :
        rows_of o (λ (r : Asset). r.organization_id) t.tables.assets
        ≡ rows_of o (λ (r : Asset). r.organization_id) s.tables.assets
    pub sources :
        rows_of o (λ (r : Source). r.organization_id) t.tables.sources
        ≡ rows_of o (λ (r : Source). r.organization_id) s.tables.sources
    pub policies :
        rows_of o (λ (r : Policy). r.organization_id) t.tables.policies
        ≡ rows_of o (λ (r : Policy). r.organization_id) s.tables.policies
    pub drills :
        rows_of o (λ (r : DrillRow). r.organization_id) t.tables.drills
        ≡ rows_of o (λ (r : DrillRow). r.organization_id) s.tables.drills
    pub snapshots :
        rows_of o (λ (r : SnapshotRow). r.organization_id) t.snapshots
        ≡ rows_of o (λ (r : SnapshotRow). r.organization_id) s.snapshots
    pub evidence :
        rows_of o (λ (r : SnapshotRow). r.organization_id) t.evidence
        ≡ rows_of o (λ (r : SnapshotRow). r.organization_id) s.evidence
    pub audits :
        rows_of o (λ (r : AuditRow). r.organization_id) t.audits
        ≡ rows_of o (λ (r : AuditRow). r.organization_id) s.audits
    pub users :
        rows_of o (λ (r : User). r.organization_id) t.accounts.users
        ≡ rows_of o (λ (r : User). r.organization_id) s.accounts.users

  abbrev pub Spares : Site → Response × Site → Type 0
  Spares s r = Hides r.0.content × IsKept s r.1

  pub kept : (s : Site) → IsKept s s
  kept s = record {
    assets = refl;
    sources = refl;
    policies = refl;
    drills = refl;
    snapshots = refl;
    evidence = refl;
    audits = refl;
    users = refl;
  }

  pub with_assets :
      (s : Site) (rows : List Asset)
      → rows_of o (λ (r : Asset). r.organization_id) rows
        ≡ rows_of o (λ (r : Asset). r.organization_id) s.tables.assets
      → IsKept s (record s { tables = record s.tables { assets = rows } })
  with_assets s rows same = record {
    assets = same;
    sources = refl;
    policies = refl;
    drills = refl;
    snapshots = refl;
    evidence = refl;
    audits = refl;
    users = refl;
  }

  pub with_sources :
      (s : Site) (rows : List Source)
      → rows_of o (λ (r : Source). r.organization_id) rows
        ≡ rows_of o (λ (r : Source). r.organization_id) s.tables.sources
      → IsKept s (record s { tables = record s.tables { sources = rows } })
  with_sources s rows same = record {
    assets = refl;
    sources = same;
    policies = refl;
    drills = refl;
    snapshots = refl;
    evidence = refl;
    audits = refl;
    users = refl;
  }

  pub with_policies :
      (s : Site) (rows : List Policy)
      → rows_of o (λ (r : Policy). r.organization_id) rows
        ≡ rows_of o (λ (r : Policy). r.organization_id) s.tables.policies
      → IsKept s (record s { tables = record s.tables { policies = rows } })
  with_policies s rows same = record {
    assets = refl;
    sources = refl;
    policies = same;
    drills = refl;
    snapshots = refl;
    evidence = refl;
    audits = refl;
    users = refl;
  }

  pub with_drills :
      (s : Site) (rows : List DrillRow)
      → rows_of o (λ (r : DrillRow). r.organization_id) rows
        ≡ rows_of o (λ (r : DrillRow). r.organization_id) s.tables.drills
      → IsKept s (record s { tables = record s.tables { drills = rows } })
  with_drills s rows same = record {
    assets = refl;
    sources = refl;
    policies = refl;
    drills = same;
    snapshots = refl;
    evidence = refl;
    audits = refl;
    users = refl;
  }

  -- The pool, the hub and the sessions are not rows of the tables.
  pub workers-IsKept :
      (s t : Site) (w : WorkerPool) → IsKept s t → IsKept s (record t { workers = w })
  workers-IsKept s t w k = record {
    assets = k.assets;
    sources = k.sources;
    policies = k.policies;
    drills = k.drills;
    snapshots = k.snapshots;
    evidence = k.evidence;
    audits = k.audits;
    users = k.users;
  }

  pub hub-IsKept : (s : Site) (h : EventHub) → IsKept s (record s { hub = h })
  hub-IsKept s h = record {
    assets = refl;
    sources = refl;
    policies = refl;
    drills = refl;
    snapshots = refl;
    evidence = refl;
    audits = refl;
    users = refl;
  }

  pub accounts-IsKept :
      (s : Site) (accounts : Accounts)
      → rows_of o (λ (r : User). r.organization_id) accounts.users
        ≡ rows_of o (λ (r : User). r.organization_id) s.accounts.users
      → IsKept s (record s { accounts = accounts })
  accounts-IsKept s accounts same = record {
    assets = refl;
    sources = refl;
    policies = refl;
    drills = refl;
    snapshots = refl;
    evidence = refl;
    audits = refl;
    users = same;
  }

  pub db_failure-Hides : (e : QueryError) → Hides (db_failure e).content
  unfolding db_failure
  db_failure-Hides no_rows = tt
  db_failure-Hides database_error = tt
  db_failure-Hides invalid_target = tt

  module _ (a : Answers) (p : Principal) (n : p.organization_id ≢ o) where
    -- An audit row of a foreign principal.
    pub audited :
        (event resource : String) (s t : Site)
        → IsKept s t
        → IsKept s (write_audit a p event resource t)
    audited event resource s t k = if_either (IsKept s) a.audit_fails k record {
      assets = k.assets;
      sources = k.sources;
      policies = k.policies;
      drills = k.drills;
      snapshots = k.snapshots;
      evidence = k.evidence;
      audits = rows_of-foreign o (λ (r : AuditRow). r.organization_id) _ t.audits n ∙ k.audits;
      users = k.users;
    }
