-- ===== src/Api/Examples.antt =====
-- The theorems on the requests at a concrete site.
use restoreguard.Common.{◌≡◌, ◌≢◌, refl, true, false, some, [], ◌∷◌, String}
use restoreguard.Common.Int.{pos}
use restoreguard.Accounts.{authenticate}
use restoreguard.Accounts.Examples.{services, ann_principal, logged_in}
use restoreguard.Access.Roles.{allowed}
use restoreguard.Access.Guard.{Visitor}
use restoreguard.Records.Examples.{calls, tables}
use restoreguard.Hub.{new_event_hub}
use restoreguard.Pool.{new_worker_pool}
use restoreguard.Api.Site.{Site, Input, Answers, a_drill}
use restoreguard.Api.Runs.{make_drill}
use restoreguard.Api.Routes.{server_of, serve}
use restoreguard.Api.Authority.{serve-Rightful}
use restoreguard.Api.Authority.Actions.{Rightful}
use restoreguard.Api.Authority.Head.{head_drills, serve-head}
use restoreguard.Api.Isolation.{Spares}
use restoreguard.Api.Isolation.Requests.{IsOutside, serve-Spares}

abbrev site : Site
site = record {
  accounts = logged_in;
  tables = tables;
  snapshots = [];
  evidence = [];
  audits = [];
  workers = new_worker_pool 2;
  hub = new_event_hub;
}

abbrev answers : Answers
answers = record {
  services = services;
  calls = calls;
  generated = record { fails = false; id = "n1"; now = 20 };
  query_fails = false;
  arrived = 100;
  audit_fails = false;
  health_fails = false;
  streaming = true;
  signals = [];
  meanwhile = λ h. h;
  trim = λ text. text;
  valid_name = λ text. true;
  name_matches = λ part text. false;
  equal_fold = λ x y. true;
  cors_origin = "https://restore.example";
}

-- The creation of a drill by an operator.
abbrev post_drill : Input
post_drill = record {
  method = "POST";
  path = "api" ∷ "v1" ∷ "drills" ∷ [];
  session = some "t1";
  csrf_token = "c1";
  origin = "";
  idempotency_key = "k1";
  id = "";
  search = "";
  status = "";
  source = "";
  asset = "";
  page = pos 0;
  limit = pos 0;
  body = some (a_drill "a1" "" "");
}

serve-Rightful_example : Rightful answers post_drill site (serve answers post_drill site)
serve-Rightful_example = serve-Rightful answers post_drill site

acme-globex : ◌≢◌ {A = String} "acme" "globex"
acme-globex e = cc e

post_drill-IsOutside : IsOutside "globex" answers post_drill site
unfolding authenticate
post_drill-IsOutside = (acme-globex, tt)

serve-Spares_example : Spares "globex" site (serve answers post_drill site)
serve-Spares_example = serve-Spares "globex" answers post_drill site post_drill-IsOutside

abbrev ann_visitor : Visitor
ann_visitor = record { principal = ann_principal; csrf_hash = "c1" }

ann-live : (server_of answers site).authenticate "t1" ≡ some ann_visitor
unfolding authenticate
ann-live = refl

ann-reads : allowed ann_visitor.principal.roles "drill.read" ≡ true
unfolding allowed
ann-reads = refl

serve-head_example :
    serve answers (head_drills post_drill) site
    ≡ make_drill answers ann_principal (head_drills post_drill) post_drill.body site
serve-head_example = serve-head answers post_drill site ann_visitor "t1" refl ann-live ann-reads
