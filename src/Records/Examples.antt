-- ===== src/Records/Examples.antt =====
-- The theorems on the records at concrete tables.
use restoreguard.Common.{
  ℕ, ◌*◌, ◌≡◌, ◌≢◌, refl, Bool, true, false, some, List, [], ◌∷◌, String, take, length, ◌≤◌, All,
  arith,
}
use restoreguard.Common.Int.{pos}
use restoreguard.Records.Assets.{Asset, ok}
use restoreguard.Records.Pages.{list_rows}
use restoreguard.Records.Pages.Cover.{pages, pages-take, IsSelected, list_rows-All}
use restoreguard.Records.Drills.{Tables, Calls, DrillRequest, new_row, item_of, create_drill}
use restoreguard.Records.Drills.Idempotency.{create_drill-again}

abbrev five : List ℕ
five = 1 ∷ 2 ∷ 3 ∷ 4 ∷ 5 ∷ []

pages-take_example : pages 2 2 five ≡ some (take (2 * 2) five)
pages-take_example = pages-take 2 2 five (omega arith)

abbrev asset : Asset
asset = record {
  id = "a1";
  organization_id = "acme";
  name = "ERP";
  kind = "POSTGRESQL_DATABASE";
  environment = "DEMO";
  criticality = "HIGH";
  owner_name = "";
  team = "";
  description = "";
  enabled = true;
  created_at = 10;
}

abbrev owner : Asset → String
owner r = r.organization_id

abbrev any_asset : Asset → Bool
any_asset r = true

abbrev made_at : Asset → ℕ
made_at r = r.created_at

listed-ok :
    list_rows false owner made_at any_asset "acme" (pos 1) (pos 20) (asset ∷ []) ≡ some (asset ∷ [])
unfolding list_rows
listed-ok = refl

list_rows-All_example :
    All (IsSelected owner any_asset "acme") (asset ∷ []) × (length (asset ∷ []) ≤ 100)
list_rows-All_example =
    list_rows-All false owner made_at any_asset "acme" (pos 1) (pos 20) (asset ∷ []) (asset ∷ [])
      listed-ok

abbrev pub tables : Tables
tables = record { assets = asset ∷ []; sources = []; policies = []; drills = [] }

abbrev pub calls : Calls
calls = record {
  first_fails = false;
  second_fails = false;
  new_id = "d1";
  new_key = "k0";
  now = 20;
}

abbrev request : DrillRequest
request = record {
  organization_id = "acme";
  user_id = "u1";
  asset_id = "a1";
  snapshot_id = "";
  policy_id = "";
  key = "k1";
}

abbrev after : Tables
after = record tables { drills = new_row calls request "k1" ∷ [] }

create_drill-ok :
    create_drill calls request tables ≡ (ok (item_of (new_row calls request "k1"), true), after)
unfolding create_drill
create_drill-ok = refl

key-ne : request.key ≢ ""
key-ne e = cc e

create_drill-again_example :
    create_drill calls request after ≡ (ok (item_of (new_row calls request "k1"), false), after)
create_drill-again_example =
    create_drill-again calls calls request request tables after
      (item_of (new_row calls request "k1")) true key-ne refl refl create_drill-ok refl
