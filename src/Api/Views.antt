-- ===== src/Api/Views.antt =====
-- The overview, and the lists of snapshots, evidence and audit events
-- (backend/internal/httpapi/handlers.go: overview, snapshots, evidence, audit, simpleRows;
-- backend/internal/database/resources.go: Overview).
use restoreguard.Common.{
  ℕ, zero, suc, ◌*◌, ◌/◌, Bool, true, false, ◌&&◌, ◌||◌, not, Option, some, List, [], ◌∷◌, String,
  str_eq, any, filter, take, length, if◌then◌else◌,
}
use restoreguard.Domain.Status.{DrillStatus, failed, inconclusive}
use restoreguard.Domain.Lifecycle.{is_terminal}
use restoreguard.Domain.Recovery.{PolicyResult, fail, Assessment, verified}
use restoreguard.Records.Pages.{selected}
use restoreguard.Records.Assets.{Asset, database_error}
use restoreguard.Records.Drills.{DrillRow, Tables}
use restoreguard.Api.Site.{
  Site, AuditRow, SnapshotRow, Input, Answers, Content, counts, snapshots_shown, audits_shown,
  Response, Handler, reply, db_failure,
}

abbrev is_verified : Option Assessment → Bool
is_verified (some verified) = true
is_verified _ = false

abbrev is_fail : PolicyResult → Bool
is_fail fail = true
is_fail _ = false

abbrev is_failed_status : DrillStatus → Bool
is_failed_status failed = true
is_failed_status _ = false

abbrev is_inconclusive_status : DrillStatus → Bool
is_inconclusive_status inconclusive = true
is_inconclusive_status _ = false

abbrev is_of : String → String → DrillRow → Bool
is_of asset organization d =
    str_eq d.protected_asset_id asset && str_eq d.organization_id organization

-- `SELECT count(*) FROM recovery_drills WHERE organization_id=$1 AND` a condition
abbrev count_drills : String → (DrillRow → Bool) → List DrillRow → ℕ
count_drills organization p ds =
    length (filter (λ (d : DrillRow). str_eq d.organization_id organization && p d) ds)

-- The assets named by the rows, each once.
unfoldable distinct : List DrillRow → List String
distinct [] = []
distinct (d ∷ ds) =
    let rest = distinct ds in
    if any (str_eq d.protected_asset_id) rest then rest else d.protected_asset_id ∷ rest

abbrev verified_drills : String → List DrillRow → List DrillRow
verified_drills organization ds =
    filter
      (λ (d : DrillRow).
        str_eq d.organization_id organization && is_verified d.drill.recovery_status)
      ds

abbrev is_never_tested : String → List DrillRow → Asset → Bool
is_never_tested organization ds a =
    str_eq a.organization_id organization
    && not (any (λ (d : DrillRow). str_eq d.protected_asset_id a.id) ds)

-- The columns of the row of Overview, in order.
unfoldable overview_counts : String → Tables → List ℕ
unfolding distinct
overview_counts organization t =
    length (filter (λ (a : Asset). str_eq a.organization_id organization && a.enabled) t.assets)
    ∷ length (distinct (verified_drills organization t.drills))
    ∷ length (filter (is_never_tested organization t.drills) t.assets)
    ∷ count_drills organization (λ (d : DrillRow). is_fail d.drill.rpo_result) t.drills
    ∷ count_drills organization (λ (d : DrillRow). is_fail d.drill.rto_result) t.drills
    ∷ count_drills organization (λ (d : DrillRow). is_failed_status d.drill.status) t.drills
    ∷ count_drills organization (λ (d : DrillRow). is_inconclusive_status d.drill.status) t.drills
    ∷ count_drills organization (λ (d : DrillRow). not (is_terminal d.drill.status)) t.drills
    ∷ []

abbrev coverage_percent : List ℕ → ℕ
coverage_percent (zero ∷ vs) = 0
coverage_percent (suc protected ∷ tested ∷ vs) = tested * 100 / suc protected
coverage_percent _ = 0

unfoldable pub overview : Handler
unfolding overview_counts db_failure
overview a p i s =
    if a.query_fails
    then (db_failure database_error, s)
    else (let values = overview_counts p.organization_id s.tables in
        (reply 200 (counts (coverage_percent values ∷ values)), s))

abbrev pub is_wanted : Input → SnapshotRow → Bool
is_wanted i r =
    (str_eq i.source "" || str_eq r.source i.source)
    && (str_eq i.status "" || str_eq r.status i.status)

-- The loop over the rows ends where no further row arrives, whatever the reason.
unfoldable pub snapshots : Handler
unfolding selected db_failure
snapshots a p i s = if a.query_fails then (db_failure database_error, s) else (
  reply 200 (
      snapshots_shown (
        take a.arrived (
          take 100 (
            selected (λ (r : SnapshotRow). r.organization_id) (λ (r : SnapshotRow). r.created_at)
              (is_wanted i) p.organization_id s.snapshots)))),
  s,
)

unfoldable pub simple_rows :
    {A : Type 0} → (List A → Content) → Answers → List A → Site → Response × Site
unfolding db_failure
simple_rows shown a rows s =
    if a.query_fails
    then (db_failure database_error, s)
    else (reply 200 (shown (take a.arrived (take 100 rows))), s)

unfoldable pub evidence : Handler
unfolding simple_rows selected
evidence a p i s =
    simple_rows snapshots_shown a
      (selected (λ (r : SnapshotRow). r.organization_id) (λ (r : SnapshotRow). r.created_at)
        (λ (r : SnapshotRow). true) p.organization_id s.evidence)
      s

unfoldable pub audit : Handler
unfolding simple_rows
audit a p i s =
    simple_rows audits_shown a
      (filter (λ (r : AuditRow). str_eq r.organization_id p.organization_id) s.audits) s
