-- ===== src/Api/Isolation/Runs.antt =====
-- The handlers of drills, for another organization.
use restoreguard.Common.{
  ◌≡◌, refl, sym, ap, ◌∙◌, subst, ◌≢◌, Bool, true, false, Option, none, some, List, String, str_eq,
  if_either,
}
use restoreguard.Accounts.{Principal}
use restoreguard.Records.Assets.{Reply, error, ok}
use restoreguard.Records.Drills.{
  DrillRow, DrillItem, Tables, create_drill, list_drills, get_drill, cancel_listed,
}
use restoreguard.Pool
use restoreguard.Pool.{WorkerPool, submit}
use restoreguard.Api.Site.{
  pagination, Site, Body, a_drill, Input, Answers, Content, drills_shown, report_shown, write_audit,
  is_get,
}
use restoreguard.Api.Tenants.{
  rows_of, HidesReply, HidesItem, create_drill-Spares, cancel_listed-rows, list_rows-Foreign,
  get_drill-Hides,
}
use restoreguard.Api.Isolation.{
  Hides, IsKept, Spares, kept, with_drills, db_failure-Hides, audited, workers-IsKept, hub-IsKept,
}
use restoreguard.Api.Runs.{
  is_asked_for, set_tables, submit_reply, drill_reply, drill_request, make_drill, show_drills,
  drills, row_reply, one_drill, drill, report, cancel_reply, cancel, stream, stream_hub, events,
}
use restoreguard.Api.Effects.Runs.{create_drill-SameButDrills, cancel_listed-SameButDrills}
use restoreguard.Api.Isolation.Rows.{list_reply-Spares}

module _ (o : String) (a : Answers) (p : Principal) (n : p.organization_id ≢ o) where
  submit_reply-Spares :
      (item : DrillItem) (r : Bool × WorkerPool) (s t : Site)
      → item.organization_id ≢ o
      → IsKept o s t
      → Spares o s (submit_reply item r t)
  submit_reply-Spares item (true, workers) s t h k = (tt, workers-IsKept o s t workers k)
  submit_reply-Spares item (false, workers) s t h k = (h, workers-IsKept o s t workers k)

  drill_reply-Spares :
      (r : Reply (DrillItem × Bool)) (t : Tables) (s : Site)
      → HidesItem o p.organization_id n r
      → IsKept o s (set_tables t s)
      → Spares o s (drill_reply a p (r, t) s)
  unfolding drill_reply
  drill_reply-Spares (error e) t s h k = (db_failure-Hides o e, k)
  drill_reply-Spares (ok (item, false)) t s h k = (h, k)
  drill_reply-Spares (ok (item, true)) t s h k =
      submit_reply-Spares item (submit item.id s.workers) s
        (write_audit a p "drill.created" item.id (set_tables t s)) h
        (audited o a p n "drill.created" item.id s (set_tables t s) k)

  drills-IsKept :
      (t : Tables) (s : Site)
      → ((rows : List DrillRow) × (t ≡ record s.tables { drills = rows }))
      → rows_of o (λ (r : DrillRow). r.organization_id) t.drills
        ≡ rows_of o (λ (r : DrillRow). r.organization_id) s.tables.drills
      → IsKept o s (set_tables t s)
  drills-IsKept t s (rows, e) same =
      subst (λ u. IsKept o s (set_tables u s)) (sym e)
        (with_drills o s rows (
          sym (ap (λ (u : Tables). rows_of o (λ (r : DrillRow). r.organization_id) u.drills) e)
          ∙ same))

  make_drill-Spares : (i : Input) (b : Option Body) (s : Site) → Spares o s (make_drill a p i b s)
  unfolding make_drill
  make_drill-Spares i none s = (tt, kept o s)
  make_drill-Spares i (some (a_drill asset_id snapshot_id policy_id)) s =
      let request = drill_request p i asset_id snapshot_id policy_id in
      let (hidden, same) =
        create_drill-Spares o p.organization_id n a.calls request s.tables refl in
      let made = create_drill a.calls request s.tables in
      if_either (Spares o s) (str_eq asset_id "") (tt, kept o s)
        (drill_reply-Spares made.0 made.1 s hidden
          (drills-IsKept made.1 s (create_drill-SameButDrills a.calls request s.tables) same))
  make_drill-Spares i (some _) s = (tt, kept o s)

  pub drills-Spares : (i : Input) (s : Site) → Spares o s (drills a p i s)
  unfolding drills show_drills list_drills
  drills-Spares i s =
      if_either (Spares o s) (is_get i.method)
        (list_reply-Spares o a p n drills_shown _ s (λ rows h.
          list_rows-Foreign o p.organization_id n a.query_fails
            (λ (r : DrillRow). r.organization_id) (λ (r : DrillRow). r.created_at) (is_asked_for i)
            (pagination i).0 (pagination i).1 s.tables.drills rows h))
        (make_drill-Spares i i.body s)

  row_reply-Spares :
      (shown : DrillRow → Content) (r : Reply DrillRow) (s : Site)
      → ((d : DrillRow) → d.organization_id ≢ o → Hides o (shown d))
      → HidesReply o (λ (r : DrillRow). r.organization_id) r
      → Spares o s (row_reply shown r, s)
  row_reply-Spares shown (error e) s f h = (db_failure-Hides o e, kept o s)
  row_reply-Spares shown (ok d) s f h = (f d h, kept o s)

  pub drill-Spares : (i : Input) (s : Site) → Spares o s (drill a p i s)
  unfolding drill
  drill-Spares i s =
      row_reply-Spares one_drill _ s (λ d h. (h, tt))
        (get_drill-Hides o p.organization_id n a.query_fails i.id s.tables)

  pub report-Spares : (i : Input) (s : Site) → Spares o s (report a p i s)
  unfolding report
  report-Spares i s =
      row_reply-Spares report_shown _ s (λ d h. h)
        (get_drill-Hides o p.organization_id n a.query_fails i.id s.tables)

  stream-Spares : (id : String) (r : Reply DrillRow) (s : Site) → Spares o s (stream a id r s)
  unfolding stream
  stream-Spares id (error e) s = (db_failure-Hides o e, kept o s)
  stream-Spares id (ok d) s =
      if_either (Spares o s) a.streaming (tt, hub-IsKept o s (stream_hub a id s.hub)) (tt, kept o s)

  pub events-Spares : (i : Input) (s : Site) → Spares o s (events a p i s)
  unfolding events
  events-Spares i s = stream-Spares i.id (get_drill a.query_fails p.organization_id i.id s.tables) s

  cancel_reply-Spares :
      (id : String) (r : Reply (Unit {0})) (t : Tables) (s u : Site)
      → IsKept o s (set_tables t u)
      → Spares o s (cancel_reply a p id (r, t) u)
  unfolding cancel_reply
  cancel_reply-Spares id (error e) t s u k = (db_failure-Hides o e, k)
  cancel_reply-Spares id (ok x) t s u k =
      (tt, audited o a p n "drill.cancelled" id s (set_tables t u) k)

  pub cancel-Spares : (i : Input) (s : Site) → Spares o s (cancel a p i s)
  unfolding cancel
  cancel-Spares i s =
      let made = cancel_listed a.query_fails a.calls.now p.organization_id i.id s.tables in
      cancel_reply-Spares i.id made.0 made.1 s (record s { workers = Pool.cancel i.id s.workers })
        (workers-IsKept o s (set_tables made.1 s) (Pool.cancel i.id s.workers) (
          drills-IsKept made.1 s
            (cancel_listed-SameButDrills a.query_fails a.calls.now p.organization_id i.id s.tables)
            (cancel_listed-rows o p.organization_id n a.query_fails a.calls.now i.id s.tables)))
