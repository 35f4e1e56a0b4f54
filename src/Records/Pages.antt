-- ===== src/Records/Pages.antt =====
-- Pages of a table (backend/internal/database/resources.go: pageValues and the list queries).
pub mod Cover
use restoreguard.Common.{
  ℕ, zero, suc, ◌+◌, ◌-◌, ◌*◌, ◌%◌, ◌^◌, Bool, true, false, ◌&&◌, Option, none, some, List, [], ◌∷◌,
  String, str_eq, ltb, leb, filter, take, drop, if◌then◌else◌,
}
use restoreguard.Common.Int.{ℤ, pos, negsuc}

-- `if page < 1 { page = 1 }`
abbrev pub at_least_one : ℤ → ℕ → ℕ
at_least_one (pos (suc n)) default = suc n
at_least_one (pos zero) default = default
at_least_one (negsuc n) default = default

abbrev at_most : ℕ → ℕ → ℕ
at_most bound n = if ltb bound n then bound else n

unfoldable pub page_values : ℤ → ℤ → ℕ × ℕ
page_values page limit = (at_least_one page 1, at_most 100 (at_least_one limit 20))

-- `(page-1)*limit` as an int64, which PostgreSQL refuses where it is negative.
unfoldable pub offset : ℕ → ℕ → ℕ
offset page limit = (page - 1) * limit % 2 ^ 64

module _ {A : Type 0} where
  abbrev pub insert_by : (A → ℕ) → A → List A → List A
  insert_by time x [] = x ∷ []
  insert_by time x (y ∷ ys) =
      let rest = insert_by time x ys in if ltb (time x) (time y) then y ∷ rest else x ∷ y ∷ ys

  -- `ORDER BY created_at DESC`
  unfoldable pub newest_first : (A → ℕ) → List A → List A
  newest_first time [] = []
  newest_first time (x ∷ xs) = insert_by time x (newest_first time xs)

  -- `LIMIT limit OFFSET (page-1)*limit`
  unfoldable pub page_of : ℕ → ℕ → List A → Option (List A)
  unfolding offset
  page_of page limit rows =
      if leb (2 ^ 63) (offset page limit)
      then none
      else some (take limit (drop (offset page limit) rows))

  -- The rows of the organization that pass the query's filter, newest first.
  unfoldable pub selected : (A → String) → (A → ℕ) → (A → Bool) → String → List A → List A
  unfolding newest_first
  selected owner time keep organization rows =
      newest_first time (filter (λ row. str_eq (owner row) organization && keep row) rows)

  -- A list query; none is an error.
  unfoldable pub list_rows :
      Bool → (A → String) → (A → ℕ) → (A → Bool) → String → ℤ → ℤ → List A → Option (List A)
  unfolding selected page_of page_values
  list_rows fails owner time keep organization page limit rows =
      if fails
      then none
      else (let (p, l) = page_values page limit in
          page_of p l (selected owner time keep organization rows))
