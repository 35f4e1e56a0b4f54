-- ===== src/Records/Drills/Idempotency.antt =====
-- The idempotency key of a drill.
use restoreguard.Common.{
  ◌≡◌, refl, sym, ap, ◌∙◌, subst, ◌≢◌, Bool, true, false, ◌||◌, not, Option, none, some, List, [],
  ◌∷◌, String, str_eq, eq_refl, eq_iff, any, find, if◌then◌else◌, if_ne, if_cases, if_either, arith,
}
use restoreguard.Records.Assets.{Reply, ok, is_asset}
use restoreguard.Records.Drills.{
  DrillRow, Tables, Calls, DrillRequest, DrillItem, new_row, item_of, has_key, found_item,
  existing_drill, create_keyed, create_drill,
}

-- The unique key: no two rows have the same organization and idempotency key.
abbrev pub IsKeyed : List DrillRow → Type 0
IsKeyed [] = Unit {0}
IsKeyed (d ∷ ds) = (any (has_key d.organization_id d.idempotency_key) ds ≡ false) × IsKeyed ds

-- A row that is found passes the test, so there is one.
find-any :
    (p : DrillRow → Bool) (ds : List DrillRow) {d : DrillRow} → find p ds ≡ some d → any p ds ≡ true
find-any p [] h = cc h
find-any p (x ∷ xs) {d} h =
    let rest : find p xs ≡ some d → any p xs ≡ true = find-any p xs in ground (arith, h)

found_item-lem :
    (o : Option DrillRow) {item : DrillItem} {created : Bool}
    → found_item o ≡ ok (item, created)
    → (d : DrillRow) × (o ≡ some d) × (item_of d ≡ item)
found_item-lem none h = cc h
found_item-lem (some d) h = (d, refl, cc h)

existing_drill-lem :
    (c : Calls) (r : DrillRequest) (key : String) (t : Tables) {item : DrillItem} {created : Bool}
    → existing_drill c r key t ≡ ok (item, created)
    → (d : DrillRow) × (find (has_key r.organization_id key) t.drills ≡ some d) × (item_of d ≡ item)
unfolding existing_drill
existing_drill-lem c r key t h =
    let (_, k) = if_ne c.second_fails (λ e. cc e) h in
    found_item-lem (find (has_key r.organization_id key) t.drills) k

find-new_row :
    (c : Calls) (r : DrillRequest) (key : String) (ds : List DrillRow)
    → find (has_key r.organization_id key) (new_row c r key ∷ ds) ≡ some (new_row c r key)
find-new_row c r key ds = rw (eq_refl r.organization_id, eq_refl key)

abbrev pub Holds : DrillRequest → String → DrillItem → Tables → Type 0
Holds r key item u =
    (d : DrillRow) × (find (has_key r.organization_id key) u.drills ≡ some d) × (item_of d ≡ item)

-- The item that is returned is the one that the table holds under the key.
pub create_keyed-Holds :
    (c : Calls) (r : DrillRequest) (key : String) (t u : Tables) (item : DrillItem) (created : Bool)
    → create_keyed c r key t ≡ (ok (item, created), u)
    → Holds r key item u
unfolding create_keyed
create_keyed-Holds c r key t u item created h =
    let (_, k) = if_ne c.first_fails (λ e. cc e) h in
    if_cases
      (λ (p : Reply (DrillItem × Bool) × Tables). p ≡ (ok (item, created), u) → Holds r key item u)
      (not (any (is_asset r.organization_id r.asset_id) t.assets)
        || any (has_key r.organization_id key) t.drills)
      (λ _ l.
        subst (Holds r key item) (ap (λ (p : Reply (DrillItem × Bool) × Tables). p.1) l)
          (existing_drill-lem c r key t (ap (λ (p : Reply (DrillItem × Bool) × Tables). p.0) l)))
      (λ _ l.
        subst (Holds r key item) (ap (λ (p : Reply (DrillItem × Bool) × Tables). p.1) l)
          (new_row c r key, find-new_row c r key t.drills, cc l))
      k

create_keyed-held :
    (e : Calls) (q : DrillRequest) (key : String) (u : Tables) (d : DrillRow)
    → find (has_key q.organization_id key) u.drills ≡ some d
    → (e.first_fails || e.second_fails) ≡ false
    → create_keyed e q key u ≡ (ok (item_of d, false), u)
unfolding create_keyed existing_drill
create_keyed-held e q key u d h works =
    let there = find-any (has_key q.organization_id key) u.drills h in
    ground (arith, h, there, works)

create_drill-named :
    (c : Calls) (r : DrillRequest) (t : Tables)
    → r.key ≢ ""
    → create_drill c r t ≡ create_keyed c r r.key t
unfolding create_drill
create_drill-named c r t n =
    if_cases (λ k. create_keyed c r k t ≡ create_keyed c r r.key t) (str_eq r.key "")
      (λ h. absurd (n ((eq_iff r.key "").0 h))) (λ _. refl)

-- A drill is created once for each idempotency key of an organization: after a CreateDrill that
-- returned an item, each later one of the same organization with the same key, whatever else it asks
-- for, returns that item as not created and changes nothing, as long as the database answers.
pub create_drill-again :
    (c e : Calls) (r q : DrillRequest) (t u : Tables) (item : DrillItem) (created : Bool)
    → r.key ≢ ""
    → q.key ≡ r.key
    → q.organization_id ≡ r.organization_id
    → create_drill c r t ≡ (ok (item, created), u)
    → (e.first_fails || e.second_fails) ≡ false
    → create_drill e q u ≡ (ok (item, false), u)
create_drill-again c e r q t u item created named same owner h works =
    let (d, found, held) =
      create_keyed-Holds c r r.key t u item created (sym (create_drill-named c r t named) ∙ h) in
    let there : find (has_key q.organization_id q.key) u.drills ≡ some d = rw (owner, same) found in
    create_drill-named e q u (λ k. named (sym same ∙ k))
    ∙ create_keyed-held e q q.key u d there works
    ∙ ap (λ i. (ok (i, false), u)) held

create_keyed-IsKeyed :
    (c : Calls) (r : DrillRequest) (key : String) (t : Tables)
    → IsKeyed t.drills
    → IsKeyed (create_keyed c r key t).1.drills
unfolding create_keyed
create_keyed-IsKeyed c r key t k =
    if_either (λ (p : Reply (DrillItem × Bool) × Tables). IsKeyed p.1.drills) c.first_fails k
      (if_cases (λ (p : Reply (DrillItem × Bool) × Tables). IsKeyed p.1.drills)
        (not (any (is_asset r.organization_id r.asset_id) t.assets)
          || any (has_key r.organization_id key) t.drills)
        (λ _. k) (λ n. (ground (arith, n), k)))

-- CreateDrill keeps the unique key, whatever fails.
create_drill-IsKeyed :
    (c : Calls) (r : DrillRequest) (t : Tables)
    → IsKeyed t.drills
    → IsKeyed (create_drill c r t).1.drills
unfolding create_drill
create_drill-IsKeyed c r t k =
    create_keyed-IsKeyed c r (if str_eq r.key "" then c.new_key else r.key) t k
