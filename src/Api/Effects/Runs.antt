-- ===== src/Api/Effects/Runs.antt =====
-- The handlers of drills (backend/internal/httpapi/handlers.go: drills, cancel) and their table.
use restoreguard.Common.{
  ◌≡◌, refl, ◌∙◌, Bool, true, false, ◌||◌, not, Option, none, some, List, ◌∷◌, map, String, str_eq,
  any, if◌then◌else◌, if_either,
}
use restoreguard.Accounts.{Principal}
use restoreguard.Records.Assets.{Reply, error, ok, is_asset}
use restoreguard.Domain.Recovery.{Time}
use restoreguard.Pool
use restoreguard.Pool.{WorkerPool, submit}
use restoreguard.Records.Drills.{
  DrillRow, DrillItem, DrillRequest, Calls, Tables, has_key, new_row, is_cancellable, cancel_row,
  create_drill, create_keyed, cancel_listed,
}
use restoreguard.Api.Site.{Site, Body, a_drill, Input, Answers, is_get, write_audit}
use restoreguard.Api.Runs.{
  show_drills, make_drill, drills, cancel, drill_reply, submit_reply, set_tables, drill_request,
  cancel_reply,
}
use restoreguard.Api.Effects.{SetsDrills, write_audit-tables}

submit_reply-tables :
    (item : DrillItem) (r : Bool × WorkerPool) (s : Site)
    → (submit_reply item r s).1.tables ≡ s.tables
submit_reply-tables item (true, workers) s = refl
submit_reply-tables item (false, workers) s = refl

-- CreateDrill replaces the drills only.
abbrev SameButDrills : Tables → Tables → Type 0
SameButDrills t u = (rows : List DrillRow) × (u ≡ record t { drills = rows })

pub create_drill-SameButDrills :
    (c : Calls) (r : DrillRequest) (t : Tables) → SameButDrills t (create_drill c r t).1
unfolding create_drill create_keyed
create_drill-SameButDrills c r t =
    let key = if str_eq r.key "" then c.new_key else r.key in
    if_either (λ (x : Reply (DrillItem × Bool) × Tables). SameButDrills t x.1) c.first_fails
      (t.drills, refl)
      (if_either (λ (x : Reply (DrillItem × Bool) × Tables). SameButDrills t x.1)
        (not (any (is_asset r.organization_id r.asset_id) t.assets)
          || any (has_key r.organization_id key) t.drills)
        (t.drills, refl) (new_row c r key ∷ t.drills, refl))

drill_reply-tables :
    (a : Answers) (p : Principal) (r : Reply (DrillItem × Bool) × Tables) (s : Site)
    → (drill_reply a p r s).1.tables ≡ r.1
unfolding drill_reply
drill_reply-tables a p (error e, t) s = refl
drill_reply-tables a p (ok (item, false), t) s = refl
drill_reply-tables a p (ok (item, true), t) s =
    submit_reply-tables item (submit item.id s.workers)
      (write_audit a p "drill.created" item.id (set_tables t s))
    ∙ write_audit-tables a p "drill.created" item.id (set_tables t s)

make_drill-Sets :
    (a : Answers) (p : Principal) (i : Input) (b : Option Body) (s : Site)
    → SetsDrills s (make_drill a p i b s)
unfolding make_drill
make_drill-Sets a p i none s = (s.tables.drills, refl)
make_drill-Sets a p i (some (a_drill asset_id snapshot_id policy_id)) s =
    let made = create_drill a.calls (drill_request p i asset_id snapshot_id policy_id) s.tables in
    let (rows, e) =
      create_drill-SameButDrills a.calls (drill_request p i asset_id snapshot_id policy_id)
        s.tables in
    if_either (SetsDrills s) (str_eq asset_id "") (s.tables.drills, refl)
      (rows, drill_reply-tables a p made s ∙ e)
make_drill-Sets a p i (some _) s = (s.tables.drills, refl)

cancel_reply-tables :
    (a : Answers) (p : Principal) (id : String) (r : Reply (Unit {0}) × Tables) (s : Site)
    → (cancel_reply a p id r s).1.tables ≡ r.1
unfolding cancel_reply
cancel_reply-tables a p id (error e, t) s = refl
cancel_reply-tables a p id (ok x, t) s =
    write_audit-tables a p "drill.cancelled" id (set_tables t s)

pub cancel_listed-SameButDrills :
    (fails : Bool) (now : Time) (organization id : String) (t : Tables)
    → SameButDrills t (cancel_listed fails now organization id t).1
unfolding cancel_listed
cancel_listed-SameButDrills fails now organization id t =
    if_either (λ (x : Reply (Unit {0}) × Tables). SameButDrills t x.1) fails (t.drills, refl)
      (if_either (λ (x : Reply (Unit {0}) × Tables). SameButDrills t x.1)
        (not (any (is_cancellable organization id) t.drills)) (t.drills, refl)
        (map (cancel_row now organization id) t.drills, refl))

pub cancel-Sets :
    (a : Answers) (p : Principal) (i : Input) (s : Site) → SetsDrills s (cancel a p i s)
unfolding cancel
cancel-Sets a p i s =
    let (rows, e) =
      cancel_listed-SameButDrills a.query_fails a.calls.now p.organization_id i.id s.tables in
    (
      rows,
      cancel_reply-tables a p i.id
            (cancel_listed a.query_fails a.calls.now p.organization_id i.id s.tables)
            (record s { workers = Pool.cancel i.id s.workers })
          ∙ e,
    )

pub drills-Sets :
    (a : Answers) (p : Principal) (i : Input) (s : Site) → SetsDrills s (drills a p i s)
unfolding drills show_drills
drills-Sets a p i s =
    if_either (SetsDrills s) (is_get i.method) (s.tables.drills, refl)
      (make_drill-Sets a p i i.body s)
