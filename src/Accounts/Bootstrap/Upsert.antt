-- ===== src/Accounts/Bootstrap/Upsert.antt =====
-- The statements with ON CONFLICT (backend/internal/database/store.go: BootstrapDemo), carried out
-- twice.
use restoreguard.Common.{
  ◌≡◌, refl, ap, ◌∙◌, Bool, true, ◌||◌, Option, none, some, List, [], ◌∷◌, map, String, any, find,
  if◌then◌else◌, if_cases, if_ne, if_true,
}
use restoreguard.Accounts.Bootstrap.{touch_if, upsert_found, upsert, insert_once}

module _ {A : Type 0} (matches : A → Bool) where
  find-none-touch :
      (touch : A → A) (rows : List A)
      → find matches rows ≡ none
      → map (touch_if matches touch) rows ≡ rows
  find-none-touch touch [] h = refl
  find-none-touch touch (x ∷ xs) h =
      let (n, rest) = if_ne (matches x) (λ e. cc e) h in rw (n, find-none-touch touch xs rest) refl

  pub insert_once-again :
      (new new' : A) (rows : List A)
      → matches new ≡ true
      → insert_once matches new' (insert_once matches new rows) ≡ insert_once matches new rows
  unfolding insert_once
  insert_once-again new new' rows h =
      if_cases (λ rs. (if any matches rs then rs else new' ∷ rs) ≡ rs) (any matches rows)
        (λ there. if_true (any matches rows) rows (new' ∷ rows) there)
        (λ _.
          if_true (matches new || any matches rows) (new ∷ rows) (new' ∷ (new ∷ rows)) (rw h refl))

  module _ (touch : A → A) (id : A → String)
      (still : (x : A) → matches x ≡ true → matches (touch x) ≡ true)
      (same_id : (x : A) → id (touch x) ≡ id x) where
    find-touched :
        (rows : List A) (x : A)
        → find matches rows ≡ some x
        → find matches (map (touch_if matches touch) rows) ≡ some (touch x)
    find-touched [] x h = cc h
    find-touched (y ∷ ys) x h =
        if_cases
          (λ (o : Option A).
            o ≡ some x → find matches (map (touch_if matches touch) (y ∷ ys)) ≡ some (touch x))
          (matches y) (λ e q. rw (e, still y e) (ap (λ z. some (touch z)) (some-injective q)))
          (λ n q. rw (n, n) (find-touched ys x q)) h
      where
        some-injective : {x y : A} → some x ≡ some y → x ≡ y
        some-injective k = cc k

    -- The row that a second upsert finds, under the identifier that the first one gave.
    pub upsert-found :
        (new : A) (rows : List A)
        → matches new ≡ true
        → (y : A) × (find matches (upsert matches touch id new rows).1 ≡ some y)
          × (id y ≡ (upsert matches touch id new rows).0)
    unfolding upsert
    upsert-found new rows m = cases (find matches rows) refl
      where
        cases :
            (o : Option A)
            → find matches rows ≡ o
            → (y : A) × (find matches (upsert_found matches touch id new o rows).1 ≡ some y)
              × (id y ≡ (upsert_found matches touch id new o rows).0)
        cases none e = (new, rw m refl, refl)
        cases (some x) e = (touch x, find-touched rows x e, same_id x)

    module _ (again : (x : A) → touch (touch x) ≡ touch x) where
      touch_if-again :
          (x : A) → touch_if matches touch (touch_if matches touch x) ≡ touch_if matches touch x
      touch_if-again x =
          if_cases (λ y. touch_if matches touch y ≡ y) (matches x)
            (λ h. if_true (matches (touch x)) _ _ (still x h) ∙ again x) (λ n. rw n refl)

      map-again :
          (rows : List A)
          → map (touch_if matches touch) (map (touch_if matches touch) rows)
            ≡ map (touch_if matches touch) rows
      map-again [] = refl
      map-again (x ∷ xs) = λ i. touch_if-again x i ∷ map-again xs i

      pub upsert-again :
          (new new' : A) (rows : List A)
          → matches new ≡ true
          → touch new ≡ new
          → upsert matches touch id new' (upsert matches touch id new rows).1
            ≡ upsert matches touch id new rows
      unfolding upsert
      upsert-again new new' rows m t = cases (find matches rows) refl
        where
          cases :
              (o : Option A)
              → find matches rows ≡ o
              → upsert matches touch id new' (upsert_found matches touch id new o rows).1
                ≡ upsert_found matches touch id new o rows
          cases none e = rw m (λ i. (
            id new,
            (if_true (matches new) (touch new) new m ∙ t) i ∷ find-none-touch touch rows e i,
          ))
          cases (some x) e =
              ap (λ o. upsert_found matches touch id new' o (map (touch_if matches touch) rows))
                (find-touched rows x e)
              ∙ (λ i. (same_id x i, map-again rows i))

pub upsert-held :
    {A : Type 0} (matches : A → Bool) (touch : A → A) (id : A → String) (new y : A) (rows : List A)
    → find matches rows ≡ some y
    → upsert matches touch id new rows ≡ (id y, map (touch_if matches touch) rows)
unfolding upsert
upsert-held matches touch id new y rows e = ap (λ o. upsert_found matches touch id new o rows) e
