-- ===== src/Api/Tenants.antt =====
-- The rows of one organization, under the calls that other organizations make.
use restoreguard.Common.{
  ◌≡◌, refl, sym, ap, ◌∙◌, ◌⊎◌, inl, inr, ◌≢◌, ℕ, Bool, true, ◌||◌, not, Option, none, some, List,
  [], ◌∷◌, map, String, str_eq, eq_iff, any, find, filter, if◌then◌else◌, if_cases, if_either, All,
  All-weaken, find-test, arith,
}
use restoreguard.Common.Int.{ℤ, pos}
use restoreguard.Domain.Recovery.{Time}
use restoreguard.Records.Assets.{
  Asset, Source, Policy, Reply, error, ok, Generated, create_asset, get_asset, create_source,
  discover_source, create_policy, is_asset, is_asset_named, is_source, is_source_named,
  discover_row, of_found, bad_target,
}
use restoreguard.Records.Pages.{list_rows}
use restoreguard.Records.Pages.Cover.{IsSelected, list_rows-All}
use restoreguard.Records.Drills.{
  DrillRow, DrillItem, DrillRequest, Calls, Tables, create_drill, create_keyed, list_drills,
  get_drill, cancel_listed, has_key, is_cancellable, cancel_row, find_listed, has_id, any_row,
}
use restoreguard.Records.Drills.Idempotency.{create_keyed-Holds}

module _ (o : String) where
  module _ {A : Type 0} (owner : A → String) where
    -- The rows of the organization.
    abbrev pub rows_of : List A → List A
    rows_of rows = filter (λ r. str_eq (owner r) o) rows

    abbrev pub IsForeign : A → Type 0
    IsForeign r = owner r ≢ o

    pub rows_of-foreign : (x : A) (xs : List A) → IsForeign x → rows_of (x ∷ xs) ≡ rows_of xs
    rows_of-foreign x xs n =
        if_cases (λ rows. rows ≡ rows_of xs) (str_eq (owner x) o)
          (λ h. absurd (n ((eq_iff (owner x) o).0 h))) (λ _. refl)

    -- A row is kept, or is foreign before and after.
    abbrev pub KeepsOwn : (A → A) → Type 0
    KeepsOwn f = (x : A) → (f x ≡ x) ⊎ (IsForeign x × IsForeign (f x))

    pub rows_of-map : (f : A → A) (xs : List A) → KeepsOwn f → rows_of (map f xs) ≡ rows_of xs
    rows_of-map f [] k = refl
    rows_of-map f (x ∷ xs) k = elim (k x) [
      | inl same ↦ rw (same, rows_of-map f xs k) refl
      | inr (n, m) ↦
          rows_of-foreign (f x) (map f xs) m ∙ rows_of-map f xs k ∙ sym (rows_of-foreign x xs n)
    ]

    abbrev pub HidesReply : Reply A → Type 0
    HidesReply (error e) = Unit {0}
    HidesReply (ok r) = IsForeign r

    of_found-Hides :
        (p : A → Bool) (rows : List A)
        → ((r : A) → p r ≡ true → IsForeign r)
        → HidesReply (of_found (find p rows))
    of_found-Hides p [] h = tt
    of_found-Hides p (x ∷ xs) h =
        if_cases (λ f. HidesReply (of_found f)) (p x) (λ e. h x e) (λ _. of_found-Hides p xs h)

  abbrev asset_owner : Asset → String
  asset_owner r = r.organization_id

  abbrev source_owner : Source → String
  source_owner r = r.organization_id

  abbrev policy_owner : Policy → String
  policy_owner r = r.organization_id

  abbrev drill_owner : DrillRow → String
  drill_owner r = r.organization_id

  -- A call shows no row of the organization and keeps its rows.
  abbrev pub SparesAssets : List Asset → Reply Asset × List Asset → Type 0
  SparesAssets rows r =
      HidesReply asset_owner r.0 × (rows_of asset_owner r.1 ≡ rows_of asset_owner rows)

  abbrev pub SparesSources : List Source → Reply Source × List Source → Type 0
  SparesSources rows r =
      HidesReply source_owner r.0 × (rows_of source_owner r.1 ≡ rows_of source_owner rows)

  abbrev pub SparesPolicies : List Policy → Reply Policy × List Policy → Type 0
  SparesPolicies rows r =
      HidesReply policy_owner r.0 × (rows_of policy_owner r.1 ≡ rows_of policy_owner rows)

  module _ (organization : String) (n : organization ≢ o) where
    pub create_asset-Spares :
        (g : Generated) (item : Asset) (rows : List Asset)
        → SparesAssets rows (create_asset g organization item rows)
    unfolding create_asset
    create_asset-Spares g item rows =
        if_either (SparesAssets rows) (g.fails || any (is_asset_named organization item.name) rows)
          (tt, refl) (n, rows_of-foreign asset_owner _ rows n)

    pub create_source-Spares :
        (g : Generated) (item : Source) (rows : List Source)
        → SparesSources rows (create_source g organization item rows)
    unfolding create_source
    create_source-Spares g item rows =
        if_either (SparesSources rows)
          (g.fails || any (is_source_named organization item.name) rows) (tt, refl)
          (n, rows_of-foreign source_owner _ rows n)

    pub create_policy-Spares :
        (g : Generated) (item : Policy) (assets : List Asset) (rows : List Policy)
        → SparesPolicies rows (create_policy g organization item assets rows)
    unfolding create_policy
    create_policy-Spares g item assets rows =
        if_either (SparesPolicies rows)
          (bad_target item.rpo_target_seconds 31536000 || bad_target item.rto_target_seconds 604800)
          (tt, refl)
          (if_either (SparesPolicies rows) g.fails (tt, refl)
            (if_either (SparesPolicies rows)
              (not (any (is_asset organization item.protected_asset_id) assets)) (tt, refl)
              (n, rows_of-foreign policy_owner _ rows n)))

    owned_asset :
        (id : String) (r : Asset) → is_asset organization id r ≡ true → IsForeign asset_owner r
    owned_asset id r h e = n (ground (arith, h, e, eq_iff r.organization_id organization))

    pub get_asset-Hides :
        (fails : Bool) (id : String) (rows : List Asset)
        → HidesReply asset_owner (get_asset fails organization id rows)
    unfolding get_asset
    get_asset-Hides fails id rows =
        if_either (HidesReply asset_owner) fails tt
          (of_found-Hides asset_owner (is_asset organization id) rows (owned_asset id))

    discover_row-Keeps : (id : String) → KeepsOwn source_owner (discover_row organization id)
    discover_row-Keeps id r =
        if_cases (λ x. (x ≡ r) ⊎ (IsForeign source_owner r × IsForeign source_owner x))
          (is_source organization id r)
          (λ h.
            let foreign : IsForeign source_owner r =
              λ e. n (ground (arith, h, e, eq_iff r.organization_id organization)) in
            inr (foreign, foreign))
          (λ _. inl refl)

    pub discover_source-rows :
        (fails : Bool) (id : String) (rows : List Source)
        → rows_of source_owner (discover_source fails organization id rows).1
          ≡ rows_of source_owner rows
    unfolding discover_source
    discover_source-rows fails id rows =
        if_either
          (λ (r : Reply (Unit {0}) × List Source).
            rows_of source_owner r.1 ≡ rows_of source_owner rows)
          fails refl
          (if_either
            (λ (r : Reply (Unit {0}) × List Source).
              rows_of source_owner r.1 ≡ rows_of source_owner rows)
            (not (any (is_source organization id) rows)) refl
            (rows_of-map source_owner (discover_row organization id) rows (discover_row-Keeps id)))

    abbrev pub HidesItem : Reply (DrillItem × Bool) → Type 0
    HidesItem (error e) = Unit {0}
    HidesItem (ok (item, created)) = item.organization_id ≢ o

    create_keyed-Hides :
        (c : Calls) (r : DrillRequest) (key : String) (t : Tables)
        → r.organization_id ≡ organization
        → (x : Reply (DrillItem × Bool) × Tables) → create_keyed c r key t ≡ x
        → HidesItem x.0
    create_keyed-Hides c r key t same (error e, u) h = tt
    create_keyed-Hides c r key t same (ok (item, created), u) h =
        let (d, found, held) = create_keyed-Holds c r key t u item created h in
        let owned : d.organization_id ≡ r.organization_id =
          has_key-owner r.organization_id key d
            (find-test (has_key r.organization_id key) u.drills found) in
        λ e. n (sym same ∙ sym owned ∙ ap (λ (i : DrillItem). i.organization_id) held ∙ e)
      where
        has_key-owner :
            (org key : String) (d : DrillRow) → has_key org key d ≡ true → d.organization_id ≡ org
        has_key-owner org key d h = ground (arith, h, eq_iff d.organization_id org)

    create_keyed-rows :
        (c : Calls) (r : DrillRequest) (key : String) (t : Tables)
        → r.organization_id ≡ organization
        → rows_of drill_owner (create_keyed c r key t).1.drills ≡ rows_of drill_owner t.drills
    unfolding create_keyed
    create_keyed-rows c r key t same =
        if_either
          (λ (x : Reply (DrillItem × Bool) × Tables).
            rows_of drill_owner x.1.drills ≡ rows_of drill_owner t.drills)
          c.first_fails refl
          (if_either
            (λ (x : Reply (DrillItem × Bool) × Tables).
              rows_of drill_owner x.1.drills ≡ rows_of drill_owner t.drills)
            (not (any (is_asset r.organization_id r.asset_id) t.assets)
              || any (has_key r.organization_id key) t.drills)
            refl (rows_of-foreign drill_owner _ t.drills (λ e. n (sym same ∙ e))))

    pub create_drill-Spares :
        (c : Calls) (r : DrillRequest) (t : Tables)
        → r.organization_id ≡ organization
        → HidesItem (create_drill c r t).0
          × (rows_of drill_owner (create_drill c r t).1.drills ≡ rows_of drill_owner t.drills)
    unfolding create_drill
    create_drill-Spares c r t same =
        let key = if str_eq r.key "" then c.new_key else r.key in
        (
          create_keyed-Hides c r key t same (create_keyed c r key t) refl,
          create_keyed-rows c r key t same,
        )

    cancel_row-Keeps :
        (now : Time) (id : String) → KeepsOwn drill_owner (cancel_row now organization id)
    cancel_row-Keeps now id d =
        if_cases (λ x. (x ≡ d) ⊎ (IsForeign drill_owner d × IsForeign drill_owner x))
          (is_cancellable organization id d)
          (λ h.
            let foreign : IsForeign drill_owner d = λ e. n (sym (cancellable_owner h) ∙ e) in
            inr (foreign, foreign))
          (λ _. inl refl)
      where
        cancellable_owner :
            is_cancellable organization id d ≡ true → d.organization_id ≡ organization
        cancellable_owner h = ground (arith, h, eq_iff d.organization_id organization)

    pub cancel_listed-rows :
        (fails : Bool) (now : Time) (id : String) (t : Tables)
        → rows_of drill_owner (cancel_listed fails now organization id t).1.drills
          ≡ rows_of drill_owner t.drills
    unfolding cancel_listed
    cancel_listed-rows fails now id t =
        if_either
          (λ (x : Reply (Unit {0}) × Tables).
            rows_of drill_owner x.1.drills ≡ rows_of drill_owner t.drills)
          fails refl
          (if_either
            (λ (x : Reply (Unit {0}) × Tables).
              rows_of drill_owner x.1.drills ≡ rows_of drill_owner t.drills)
            (not (any (is_cancellable organization id) t.drills)) refl
            (rows_of-map drill_owner (cancel_row now organization id) t.drills
              (cancel_row-Keeps now id)))

    -- What a list query shows is foreign.
    pub list_rows-Foreign :
        {A : Type 0} (fails : Bool) (owner : A → String) (time : A → ℕ) (keep : A → Bool)
        (page limit : ℤ) (rows found : List A)
        → list_rows fails owner time keep organization page limit rows ≡ some found
        → All (IsForeign owner) found
    list_rows-Foreign fails owner time keep page limit rows found h =
        All-weaken (IsSelected owner keep organization) (IsForeign owner) (λ r s e. n (sym s.0 ∙ e))
          found (list_rows-All fails owner time keep organization page limit rows found h).0

    found_listed-Hides :
        (id : String) (listed : Option (List DrillRow))
        → ((found : List DrillRow) → listed ≡ some found → All (IsForeign drill_owner) found)
        → HidesReply drill_owner (find_listed id listed)
    found_listed-Hides id none h = tt
    found_listed-Hides id (some rows) h = of_rows rows (h rows refl)
      where
        of_rows :
            (rows : List DrillRow)
            → All (IsForeign drill_owner) rows
            → HidesReply drill_owner (of_found (find (has_id id) rows))
        of_rows [] a = tt
        of_rows (x ∷ xs) (a, rest) =
            if_either (λ f. HidesReply drill_owner (of_found f)) (has_id id x) a (of_rows xs rest)

    pub get_drill-Hides :
        (fails : Bool) (id : String) (t : Tables)
        → HidesReply drill_owner (get_drill fails organization id t)
    unfolding get_drill list_drills
    get_drill-Hides fails id t = found_listed-Hides id _ (λ found h.
        list_rows-Foreign fails drill_owner (λ d. d.created_at) any_row (pos 1) (pos 100) t.drills
          found h)
