-- ===== src/Access/Examples.antt =====
-- The theorems on the guard at a concrete request.
use restoreguard.Common.{◌≡◌, ◌↔◌, true, some, [], ◌∷◌}
use restoreguard.Access.Guard.{Request, Visitor, Server, served, require}
use restoreguard.Access.Privilege.{MayPass, require_iff}

abbrev operator : Visitor
operator = record {
  principal = record {
    user_id = "u1";
    organization_id = "acme";
    email = "op@acme.example";
    display_name = "Operator";
    roles = "OPERATOR" ∷ [];
  };
  csrf_hash = "t";
}

abbrev server : Server
server = record {
  authenticate = λ token. some operator;
  sha256 = λ text. text;
  equal_fold = λ s t. true;
  cors_origin = "https://restore.example";
}

abbrev post : Request
post = record { method = "POST"; session = some "s"; csrf_token = "t"; origin = "" }

require_iff_example :
    (require server "drill.run" post ≡ served operator)
    ↔ MayPass server "drill.run" post operator post.session
require_iff_example = require_iff server "drill.run" post operator
