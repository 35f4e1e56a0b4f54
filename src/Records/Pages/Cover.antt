-- ===== src/Records/Pages/Cover.antt =====
-- The pages of a listing.
use restoreguard.Common.{
  ℕ, zero, suc, ◌+◌, ◌*◌, ◌%◌, ◌^◌, ◌≤◌, ◌<◌, ◌≡◌, refl, sym, ap, ◌∙◌, subst, Bool, true, ◌&&◌,
  Option, none, some, List, [], ◌∷◌, ◌++◌, String, str_eq, eq_iff, ltb, leb, filter, take, drop,
  if◌then◌else◌, if_cases, if_ne, length-take, All, arith, length,
}
use restoreguard.Common.Int.{ℤ, pos, negsuc}
use restoreguard.Records.Pages.{
  page_values, insert_by, newest_first, offset, page_of, selected, list_rows,
}

page_values_bounds :
    (page limit : ℤ)
    → (1 ≤ (page_values page limit).0)
      × (1 ≤ (page_values page limit).1)
      × ((page_values page limit).1 ≤ 100)
unfolding page_values
page_values_bounds (pos zero) (pos zero) = ground arith
page_values_bounds (pos zero) (pos (suc n)) = ground arith
page_values_bounds (pos (suc m)) (pos zero) = ground arith
page_values_bounds (pos (suc m)) (pos (suc n)) = ground arith
page_values_bounds (negsuc m) (pos zero) = ground arith
page_values_bounds (negsuc m) (pos (suc n)) = ground arith
page_values_bounds (pos zero) (negsuc n) = ground arith
page_values_bounds (pos (suc m)) (negsuc n) = ground arith
page_values_bounds (negsuc m) (negsuc n) = ground arith

mod-small : (x : ℕ) → x < 2 ^ 63 → x % 2 ^ 64 ≡ x
mod-small x h = omega arith

offset-small : (n limit : ℕ) → n * limit < 2 ^ 63 → offset (suc n) limit ≡ n * limit
unfolding offset
offset-small n limit h = ap (λ k. k * limit % 2 ^ 64) (omega arith) ∙ mod-small (n * limit) h

module _ {A : Type 0} where
  take_nil : (n : ℕ) → take {A = A} n [] ≡ []
  take_nil zero = refl
  take_nil (suc n) = refl

  take-append : (m n : ℕ) (xs : List A) → take m xs ++ take n (drop m xs) ≡ take (m + n) xs
  take-append zero n xs = ap (λ k. take k xs) {x = n} (omega arith)
  take-append (suc m) n [] = take_nil n ∙ sym (take_nil (suc m + n))
  take-append (suc m) n (x ∷ xs) =
      ap (λ l. x ∷ l) (take-append m n xs)
      ∙ ap (λ k. take k (x ∷ xs)) {x = suc (m + n)} (omega arith)

  abbrev join_pages : Option (List A) → Option (List A) → Option (List A)
  join_pages (some xs) (some ys) = some (xs ++ ys)
  join_pages (some xs) none = none
  join_pages none o = none

  -- The pages from the first to the given one, one after the other.
  abbrev pub pages : ℕ → ℕ → List A → Option (List A)
  pages zero limit rows = some []
  pages (suc n) limit rows = join_pages (pages n limit rows) (page_of (suc n) limit rows)

  page_of-small :
      (n limit : ℕ) (rows : List A)
      → n * limit < 2 ^ 63
      → page_of (suc n) limit rows ≡ some (take limit (drop (n * limit) rows))
  unfolding page_of
  page_of-small n limit rows h = rw (offset-small n limit h) (small (n * limit) h)
    where
      small :
          (x : ℕ)
          → x < 2 ^ 63
          → (if leb (2 ^ 63) x then none else some (take limit (drop x rows)))
            ≡ some (take limit (drop x rows))
      small x k = ground arith

  -- Read one after the other, the pages show the rows in order, each once, without a gap: the first
  -- n pages are the first n times limit rows, as long as the offset does not overflow.
  pub pages-take :
      (n limit : ℕ) (rows : List A)
      → n * limit < 2 ^ 63
      → pages n limit rows ≡ some (take (n * limit) rows)
  pages-take zero limit rows h = ap (λ k. some (take k rows)) {x = 0} (grind arith)
  pages-take (suc n) limit rows h =
      let small : n * limit < 2 ^ 63 = grind arith in
      rw (pages-take n limit rows small, page_of-small n limit rows small)
        (ap some (take-append (n * limit) limit rows ∙ ap (λ k. take k rows) (grind arith)))

  module _ (P : A → Type 0) where
    All-insert_by :
        (time : A → ℕ) (x : A) (ys : List A) → P x → All P ys → All P (insert_by time x ys)
    All-insert_by time x [] h hs = (h, tt)
    All-insert_by time x (y ∷ ys) h (k, ks) =
        if_cases (All P) (ltb (time x) (time y)) (λ _. (k, All-insert_by time x ys h ks))
          (λ _. (h, (k, ks)))

    All-newest_first : (time : A → ℕ) (xs : List A) → All P xs → All P (newest_first time xs)
    unfolding newest_first
    All-newest_first time [] h = tt
    All-newest_first time (x ∷ xs) (h, hs) =
        All-insert_by time x (newest_first time xs) h (All-newest_first time xs hs)

    All-drop : (n : ℕ) (xs : List A) → All P xs → All P (drop n xs)
    All-drop zero xs h = h
    All-drop (suc n) [] h = tt
    All-drop (suc n) (x ∷ xs) (h, hs) = All-drop n xs hs

    pub All-take : (n : ℕ) (xs : List A) → All P xs → All P (take n xs)
    All-take zero xs h = tt
    All-take (suc n) [] h = tt
    All-take (suc n) (x ∷ xs) (h, hs) = (h, All-take n xs hs)

  pub All-filter : (p : A → Bool) (xs : List A) → All (λ x. p x ≡ true) (filter p xs)
  All-filter p [] = tt
  All-filter p (x ∷ xs) =
      if_cases (All (λ x. p x ≡ true)) (p x) (λ h. (h, All-filter p xs)) (λ _. All-filter p xs)

  -- A row that the organization may see and the query asks for.
  abbrev pub IsSelected : (A → String) → (A → Bool) → String → A → Type 0
  IsSelected owner keep organization row = (owner row ≡ organization) × (keep row ≡ true)

  filter-IsSelected :
      (owner : A → String) (keep : A → Bool) (organization : String) (rows : List A)
      → All
          (IsSelected owner keep organization)
          (filter (λ row. str_eq (owner row) organization && keep row) rows)
  filter-IsSelected owner keep organization [] = tt
  filter-IsSelected owner keep organization (x ∷ xs) =
      if_cases (All (IsSelected owner keep organization)) (str_eq (owner x) organization && keep x)
        (λ h. (
          (ground (arith, h, eq_iff (owner x) organization), ground (arith, h)),
          filter-IsSelected owner keep organization xs,
        ))
        (λ _. filter-IsSelected owner keep organization xs)

  pub selected-All :
      (owner : A → String) (time : A → ℕ) (keep : A → Bool) (organization : String) (rows : List A)
      → All (IsSelected owner keep organization) (selected owner time keep organization rows)
  unfolding selected
  selected-All owner time keep organization rows =
      All-newest_first (IsSelected owner keep organization) time _
        (filter-IsSelected owner keep organization rows)

  -- A list query shows at most a hundred rows, all of the organization and all that the query asks
  -- for, whatever the page, the limit and the rows of other tenants.
  pub list_rows-All :
      (fails : Bool) (owner : A → String) (time : A → ℕ) (keep : A → Bool) (organization : String)
      (page limit : ℤ) (rows found : List A)
      → list_rows fails owner time keep organization page limit rows ≡ some found
      → All (IsSelected owner keep organization) found × (length found ≤ 100)
  unfolding list_rows page_of
  list_rows-All fails owner time keep organization page limit rows found h =
      let (_, k) = if_ne fails (λ e. cc e) h in
      let (p, l) = page_values page limit in
      let sorted = selected owner time keep organization rows in
      let (_, same) = if_ne (leb (2 ^ 63) (offset p l)) (λ e. cc e) k in
      subst (λ found. All (IsSelected owner keep organization) found × (length found ≤ 100))
        (some-injective same)
        (
          All-take (IsSelected owner keep organization) l (drop (offset p l) sorted) (
              All-drop (IsSelected owner keep organization) (offset p l) sorted
                (selected-All owner time keep organization rows)),
          omega
              (arith, length-take l (drop (offset p l) sorted), (page_values_bounds page limit).2),
        )
    where
      some-injective : {x y : List A} → some x ≡ some y → x ≡ y
      some-injective e = cc e
