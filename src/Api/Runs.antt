-- ===== src/Api/Runs.antt =====
-- The handlers of drills (backend/internal/httpapi/handlers.go: drills, drill, cancel, events, report).
use restoreguard.Common.{
  Bool, true, false, ◌&&◌, ◌||◌, Option, some, List, [], ◌∷◌, String, str_eq, if◌then◌else◌,
}
use restoreguard.Accounts.{Principal}
use restoreguard.Domain.Status.{
  DrillStatus, queued, preparing, restoring, validating, finalizing, succeeded, failed, cancelled,
  inconclusive,
}
use restoreguard.Records.Assets.{Reply, error, ok}
use restoreguard.Records.Drills.{
  DrillRow, DrillItem, DrillRequest, Tables, create_drill, list_drills, get_drill, cancel_listed,
}
use restoreguard.Pool
use restoreguard.Pool.{WorkerPool, submit}
use restoreguard.Hub.{EventHub, subscribe, unsubscribe}
use restoreguard.Api.Site.{
  pagination, Site, Body, a_drill, Input, Answers, Signal, disconnected, hub_closed, heartbeat,
  published, Frame, connected, keepalive, progress, Content, failure, status_text, drills_shown,
  drill_made, streamed, report_shown, Response, Handler, reply, bad_input, db_failure, write_audit,
  is_get,
}
use restoreguard.Api.Tenant.{list_reply}

unfoldable pub status_name : DrillStatus → String
status_name queued = "QUEUED"
status_name preparing = "PREPARING"
status_name restoring = "RESTORING"
status_name validating = "VALIDATING"
status_name finalizing = "FINALIZING"
status_name succeeded = "SUCCEEDED"
status_name failed = "FAILED"
status_name cancelled = "CANCELLED"
status_name inconclusive = "INCONCLUSIVE"

-- `($2='' OR status=$2) AND ($3='' OR protected_asset_id::text=$3)`
abbrev pub is_asked_for : Input → DrillRow → Bool
is_asked_for i d =
    (str_eq i.status "" || str_eq (status_name d.drill.status) i.status)
    && (str_eq i.asset "" || str_eq d.protected_asset_id i.asset)

abbrev pub set_tables : Tables → Site → Site
set_tables t s = record s { tables = t }

-- A created drill is submitted; where the queue is full, its row stays.
abbrev pub submit_reply : DrillItem → Bool × WorkerPool → Site → Response × Site
submit_reply item (true, workers) s =
    (reply 503 (failure "DRILL_QUEUE_FULL"), record s { workers = workers })
submit_reply item (false, workers) s =
    (reply 202 (drill_made item true), record s { workers = workers })

unfoldable pub drill_reply :
    Answers → Principal → Reply (DrillItem × Bool) × Tables → Site → Response × Site
unfolding submit db_failure
drill_reply a p (error e, t) s = (db_failure e, set_tables t s)
drill_reply a p (ok (item, false), t) s = (reply 202 (drill_made item false), set_tables t s)
drill_reply a p (ok (item, true), t) s =
    submit_reply item (submit item.id s.workers)
      (write_audit a p "drill.created" item.id (set_tables t s))

abbrev pub drill_request : Principal → Input → String → String → String → DrillRequest
drill_request p i asset_id snapshot_id policy_id = record {
  organization_id = p.organization_id;
  user_id = p.user_id;
  asset_id = asset_id;
  snapshot_id = snapshot_id;
  policy_id = policy_id;
  key = i.idempotency_key;
}

unfoldable pub make_drill : Answers → Principal → Input → Option Body → Site → Response × Site
unfolding create_drill drill_reply
make_drill a p i (some (a_drill asset_id snapshot_id policy_id)) s =
    if str_eq asset_id ""
    then (bad_input, s)
    else drill_reply a p
        (create_drill a.calls (drill_request p i asset_id snapshot_id policy_id) s.tables) s
make_drill a p i _ s = (bad_input, s)

unfoldable pub show_drills : Handler
unfolding list_drills db_failure
show_drills a p i s = (
  list_reply drills_shown (
      list_drills a.query_fails p.organization_id (is_asked_for i) (pagination i).0 (pagination i).1
        s.tables),
  s,
)

unfoldable pub drills : Handler
unfolding show_drills make_drill
drills a p i s = if is_get i.method then show_drills a p i s else make_drill a p i i.body s

abbrev pub row_reply : (DrillRow → Content) → Reply DrillRow → Response
row_reply shown (error e) = db_failure e
row_reply shown (ok d) = reply 200 (shown d)

abbrev pub one_drill : DrillRow → Content
one_drill d = drills_shown (d ∷ [])

unfoldable pub drill : Handler
unfolding get_drill db_failure
drill a p i s = (row_reply one_drill (get_drill a.query_fails p.organization_id i.id s.tables), s)

unfoldable pub report : Handler
unfolding get_drill db_failure
report a p i s =
    (row_reply report_shown (get_drill a.query_fails p.organization_id i.id s.tables), s)

unfoldable pub cancel_reply :
    Answers → Principal → String → Reply (Unit {0}) × Tables → Site → Response × Site
unfolding db_failure
cancel_reply a p id (error e, t) s = (db_failure e, set_tables t s)
cancel_reply a p id (ok x, t) s =
    (reply 200 (status_text "CANCELLED"), write_audit a p "drill.cancelled" id (set_tables t s))

-- The worker is cancelled before the drill is looked up in the organization.
unfoldable pub cancel : Handler
unfolding Pool.cancel cancel_listed cancel_reply
cancel a p i s =
    cancel_reply a p i.id (cancel_listed a.query_fails a.calls.now p.organization_id i.id s.tables)
      (record s { workers = Pool.cancel i.id s.workers })

-- The loop of events.
unfoldable frames : List Signal → List Frame
frames [] = []
frames (disconnected ∷ gs) = []
frames (hub_closed ∷ gs) = []
frames (published payload ∷ gs) = progress payload ∷ frames gs
frames (heartbeat ∷ gs) = keepalive ∷ frames gs

abbrev pub stream_hub : Answers → String → EventHub → EventHub
stream_hub a id h = unsubscribe id h.fresh (a.meanwhile (subscribe id h))

unfoldable pub stream : Answers → String → Reply DrillRow → Site → Response × Site
unfolding db_failure subscribe unsubscribe frames
stream a id (error e) s = (db_failure e, s)
stream a id (ok d) s =
    if a.streaming
    then (
      reply 200 (streamed (connected ∷ frames a.signals)),
      record s { hub = stream_hub a id s.hub },
    )
    else (reply 500 (failure "SSE_UNAVAILABLE"), s)

unfoldable pub events : Handler
unfolding get_drill stream
events a p i s = stream a i.id (get_drill a.query_fails p.organization_id i.id s.tables) s
