-- ===== src/Records/Drills.antt =====
-- The drills of the tenants (backend/internal/database/resources.go: ListDrills, CreateDrill,
-- GetDrill, CancelDrill). The unique key of `recovery_drills` is the organization with the
-- idempotency key.
pub mod Idempotency
use restoreguard.Common.{
  ℕ, zero, suc, Bool, true, false, ◌&&◌, ◌||◌, not, Option, none, some, List, [], ◌∷◌, ◌++◌, map,
  String, str_eq, any, find, if◌then◌else◌,
}
use restoreguard.Common.Int.{ℤ, pos}
use restoreguard.Domain.Status.{DrillStatus, queued}
use restoreguard.Domain.Lifecycle.{is_terminal}
use restoreguard.Domain.Recovery.{Time, PolicyResult, unset}
use restoreguard.Worker.World.{Drill}
use restoreguard.Worker.Database.{cancel_drill}
use restoreguard.Records.Assets.{
  Asset, Source, Policy, Reply, error, ok, no_rows, database_error, is_asset, of_found,
}
use restoreguard.Records.Pages.{list_rows}

-- A row of `recovery_drills`, with the columns that a run changes in `drill`.
pub record DrillRow : Type 0 where
  pub id : String
  pub organization_id : String
  pub protected_asset_id : String
  pub backup_snapshot_id : String
  pub recovery_policy_id : String
  pub requested_by : String
  pub idempotency_key : String
  pub created_at : Time
  pub drill : Drill

pub record Tables : Type 0 where
  pub assets : List Asset
  pub sources : List Source
  pub policies : List Policy
  pub drills : List DrillRow

-- The answers of the database and of the random generator to one call.
pub record Calls : Type 0 where
  -- the first and the second statement fail
  pub first_fails : Bool
  pub second_fails : Bool
  -- the identifier that a new row gets, and the key that replaces an empty one
  pub new_id : String
  pub new_key : String
  pub now : Time

abbrev pub has_key : String → String → DrillRow → Bool
has_key organization key d = str_eq d.organization_id organization && str_eq d.idempotency_key key

abbrev queued_drill : Time → Drill
queued_drill now = record {
  status = queued;
  started_at = none;
  completed_at = none;
  measured_rpo = none;
  measured_rto = none;
  rpo_result = unset;
  rto_result = unset;
  recovery_status = none;
  confidence = none;
  summary = "";
  given = [];
  updated_at = now;
}

-- What CreateDrill is asked for.
pub record DrillRequest : Type 0 where
  pub organization_id : String
  pub user_id : String
  pub asset_id : String
  pub snapshot_id : String
  pub policy_id : String
  pub key : String

abbrev pub new_row : Calls → DrillRequest → String → DrillRow
new_row c r key = record {
  id = c.new_id;
  organization_id = r.organization_id;
  protected_asset_id = r.asset_id;
  backup_snapshot_id = r.snapshot_id;
  recovery_policy_id = r.policy_id;
  requested_by = r.user_id;
  idempotency_key = key;
  created_at = c.now;
  drill = queued_drill c.now;
}

-- The columns that CreateDrill returns.
pub record DrillItem : Type 0 where
  pub id : String
  pub organization_id : String
  pub protected_asset_id : String
  pub backup_snapshot_id : String
  pub recovery_policy_id : String
  pub requested_by : String
  pub status : DrillStatus
  pub summary : String
  pub created_at : Time
  pub updated_at : Time

abbrev pub item_of : DrillRow → DrillItem
item_of d = record {
  id = d.id;
  organization_id = d.organization_id;
  protected_asset_id = d.protected_asset_id;
  backup_snapshot_id = d.backup_snapshot_id;
  recovery_policy_id = d.recovery_policy_id;
  requested_by = d.requested_by;
  status = d.drill.status;
  summary = d.drill.summary;
  created_at = d.created_at;
  updated_at = d.drill.updated_at;
}

abbrev pub found_item : Option DrillRow → Reply (DrillItem × Bool)
found_item none = error no_rows
found_item (some d) = ok (item_of d, false)

-- The second statement, when the first one inserted no row.
unfoldable pub existing_drill : Calls → DrillRequest → String → Tables → Reply (DrillItem × Bool)
existing_drill c r key t =
    if c.second_fails
    then error database_error
    else found_item (find (has_key r.organization_id key) t.drills)

-- The insertion selects the asset, and does nothing on a conflict of the unique key.
unfoldable pub create_keyed :
    Calls → DrillRequest → String → Tables → Reply (DrillItem × Bool) × Tables
unfolding existing_drill
create_keyed c r key t =
    if c.first_fails
    then (error database_error, t)
    else if not (any (is_asset r.organization_id r.asset_id) t.assets)
        || any (has_key r.organization_id key) t.drills
    then (existing_drill c r key t, t)
    else (ok (item_of (new_row c r key), true), record t { drills = new_row c r key ∷ t.drills })

-- The item, and whether it was created.
unfoldable pub create_drill : Calls → DrillRequest → Tables → Reply (DrillItem × Bool) × Tables
unfolding create_keyed
create_drill c r t = create_keyed c r (if str_eq r.key "" then c.new_key else r.key) t

unfoldable pub list_drills :
    Bool → String → (DrillRow → Bool) → ℤ → ℤ → Tables → Option (List DrillRow)
unfolding list_rows
list_drills fails organization keep page limit t =
    list_rows fails (λ d. d.organization_id) (λ d. d.created_at) keep organization page limit
      t.drills

abbrev pub has_id : String → DrillRow → Bool
has_id id d = str_eq d.id id

abbrev pub find_listed : String → Option (List DrillRow) → Reply DrillRow
find_listed id none = error database_error
find_listed id (some rows) = of_found (find (has_id id) rows)

abbrev pub any_row : DrillRow → Bool
any_row d = true

-- GetDrill looks through the newest hundred drills of the organization.
unfoldable pub get_drill : Bool → String → String → Tables → Reply DrillRow
unfolding list_drills
get_drill fails organization id t =
    find_listed id (list_drills fails organization any_row (pos 1) (pos 100) t)

-- `WHERE organization_id=$1 AND id=$2 AND status IN (the active statuses)`
abbrev pub is_cancellable : String → String → DrillRow → Bool
is_cancellable organization id d =
    str_eq d.organization_id organization && str_eq d.id id && not (is_terminal d.drill.status)

abbrev pub cancel_row : Time → String → String → DrillRow → DrillRow
cancel_row now organization id d =
    if is_cancellable organization id d then record d { drill = cancel_drill now d.drill } else d

unfoldable pub cancel_listed : Bool → Time → String → String → Tables → Reply (Unit {0}) × Tables
unfolding cancel_drill
cancel_listed fails now organization id t =
    if fails
    then (error database_error, t)
    else if not (any (is_cancellable organization id) t.drills)
    then (error no_rows, t)
    else (ok tt, record t { drills = map (cancel_row now organization id) t.drills })
