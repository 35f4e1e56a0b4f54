-- ===== src/Api/Site.antt =====
-- What the handlers read and write: the tables, the sessions, the worker pool, the event hub and the
-- audit log, a request, and a response (backend/internal/httpapi/handlers.go, server.go).
use restoreguard.Common.{ℕ, Bool, Option, List, ◌∷◌, String, str_eq, if◌then◌else◌}
use restoreguard.Common.Int.{ℤ, pos}
use restoreguard.Domain.Recovery.{Time}
use restoreguard.Accounts.{Accounts, Principal, Services}
use restoreguard.Records.Assets.{Asset, Source, Policy, QueryError, no_rows, Generated}
use restoreguard.Records.Drills.{DrillRow, DrillItem, Tables, Calls}
use restoreguard.Records.Pages.{at_least_one}
use restoreguard.Pool.{WorkerPool}
use restoreguard.Hub.{EventHub}

pub record AuditRow : Type 0 where
  pub organization_id : String
  pub actor : String
  pub event : String
  pub resource : String

-- A row of `backup_snapshots` or of `evidence`, as far as the queries filter and order it.
pub record SnapshotRow : Type 0 where
  pub id : String
  pub organization_id : String
  pub source : String
  pub status : String
  -- 0 where the column is null
  pub created_at : Time

pub record Site : Type 0 where
  pub accounts : Accounts
  pub tables : Tables
  pub snapshots : List SnapshotRow
  pub evidence : List SnapshotRow
  -- the newest first
  pub audits : List AuditRow
  pub workers : WorkerPool
  pub hub : EventHub

-- What `decode` gives for the handler that reads it, where the body is well formed.
pub data Body : Type 0 where
  credentials passwords : String → String → Body
  an_asset : Asset → Body
  a_source : Source → Body
  a_policy : Policy → Body
  -- the asset, the snapshot and the policy
  a_drill : String → String → String → Body

pub record Input : Type 0 where
  pub method : String
  -- the segments of the path
  pub path : List String
  pub session : Option String
  pub csrf_token : String
  pub origin : String
  pub idempotency_key : String
  -- the path's identifier and the query's filters
  pub id : String
  pub search : String
  pub status : String
  pub source : String
  pub asset : String
  -- what Atoi gives, 0 where it fails
  pub page : ℤ
  pub limit : ℤ
  pub body : Option Body

-- What the loop of a stream waits for.
pub data Signal : Type 0 where
  disconnected hub_closed heartbeat : Signal
  published : String → Signal

pub data Frame : Type 0 where
  connected keepalive : Frame
  progress : String → Frame

-- What the services answer while one request is handled.
pub record Answers : Type 0 where
  pub services : Services
  pub calls : Calls
  pub generated : Generated
  -- the query of a handler, or the reading of its rows, fails
  pub query_fails : Bool
  -- the rows that arrive before an unreported break
  pub arrived : ℕ
  pub audit_fails : Bool
  pub health_fails : Bool
  pub streaming : Bool
  -- what a stream meets, and what others do to the hub while it runs
  pub signals : List Signal
  pub meanwhile : EventHub → EventHub
  pub trim : String → String
  -- the pattern of names, whose letters are those of Unicode
  pub valid_name : String → Bool
  -- `name ILIKE '%'||search||'%'`
  pub name_matches : String → String → Bool
  pub equal_fold : String → String → Bool
  pub cors_origin : String

pub data Content : Type 0 where
  nothing : Content
  failure : String → Content
  status_text : String → Content
  logged_in : Principal → String → Content
  user_shown : Principal → Content
  counts : List ℕ → Content
  assets_shown : List Asset → Content
  sources_shown : List Source → Content
  policies_shown : List Policy → Content
  drills_shown : List DrillRow → Content
  drill_made : DrillItem → Bool → Content
  report_shown : DrillRow → Content
  snapshots_shown : List SnapshotRow → Content
  audits_shown : List AuditRow → Content
  roles_shown : List String → Content
  streamed : List Frame → Content

pub record Response : Type 0 where
  pub code : ℕ
  pub content : Content

abbrev pub Handler : Type 0
Handler = Answers → Principal → Input → Site → Response × Site

abbrev pub reply : ℕ → Content → Response
reply code content = record { code = code; content = content }

abbrev pub bad_input : Response
bad_input = reply 400 (failure "VALIDATION_ERROR")

-- `dbError`
unfoldable pub db_failure : QueryError → Response
db_failure no_rows = reply 404 (failure "NOT_FOUND")
db_failure _ = reply 500 (failure "INTERNAL_ERROR")

abbrev pub write_audit : Answers → Principal → String → String → Site → Site
write_audit a p event resource s = if a.audit_fails then s else record s {
  audits =
      record {
        organization_id = p.organization_id;
        actor = p.user_id;
        event = event;
        resource = resource;
      }
      ∷ s.audits;
}

abbrev pub pagination : Input → ℤ × ℤ
pagination i = (pos (at_least_one i.page 1), pos (at_least_one i.limit 20))

abbrev pub is_get : String → Bool
is_get method = str_eq method "GET"
