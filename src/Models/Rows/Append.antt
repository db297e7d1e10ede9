-- ===== src/Models/Rows/Append.antt =====
-- What the queries and the constraints of Models/Rows say of a table after an insert.
use vyapar_ai.Prelude.{
  ℕ, ◌≡◌, refl, ap, Bool, true, false, some, List, [], ◌∷◌, ◌++◌, map, any, ◌==◌, arith,
}
use vyapar_ai.Models.Rows.{select, first, unique, unique_key}

module _ {A : Type 0} where
  pub select-append_found :
      (p : A → Bool) (rows : List A) (r : A)
      → p r ≡ true
      → select p (rows ++ r ∷ []) ≡ select p rows ++ r ∷ []
  unfolding select
  select-append_found p [] r h = ground arith
  select-append_found p (q ∷ rows) r h = ground (arith, select-append_found p rows r h)

  pub select-append_other :
      (p : A → Bool) (rows : List A) (r : A)
      → p r ≡ false
      → select p (rows ++ r ∷ []) ≡ select p rows
  unfolding select
  select-append_other p [] r h = ground arith
  select-append_other p (q ∷ rows) r h = ground (arith, select-append_other p rows r h)

  pub select_none : (p : A → Bool) (rows : List A) → any p rows ≡ false → select p rows ≡ []
  unfolding select any
  select_none p [] h = refl
  select_none p (q ∷ rows) h = ground (arith, select_none p rows)

  any-weaken :
      (p q : A → Bool) (rows : List A)
      → ((r : A) → p r ≡ false → q r ≡ false)
      → any p rows ≡ false
      → any q rows ≡ false
  unfolding any
  any-weaken p q [] w h = refl
  any-weaken p q (r ∷ rows) w h = ground (arith, w r, any-weaken p q rows w)

  any-append_clash :
      (clash : A → A → Bool) (q r : A) (rows : List A)
      → clash q r ≡ false
      → any (clash q) (rows ++ r ∷ []) ≡ any (clash q) rows
  unfolding any
  any-append_clash clash q r [] h = ground arith
  any-append_clash clash q r (s ∷ rows) h = ground (arith, any-append_clash clash q r rows h)

  any_append_last :
      (p : A → Bool) (r : A) (rows : List A) → p r ≡ true → any p (rows ++ r ∷ []) ≡ true
  unfolding any
  any_append_last p r [] h = ground arith
  any_append_last p r (s ∷ rows) h = ground (arith, any_append_last p r rows h)

  -- An index admits a row that clashes with no other.
  pub unique-append :
      (clash : A → A → Bool) (rows : List A) (r : A)
      → unique clash rows ≡ true
      → any (λ q. clash q r) rows ≡ false
      → unique clash (rows ++ r ∷ []) ≡ true
  unfolding unique any
  unique-append clash [] r u h = refl
  unique-append clash (q ∷ rows) r u h =
      ground (arith, unique-append clash rows r, any-append_clash clash q r rows)

  -- An index refuses a row that clashes with one that is there.
  pub unique-append_clash :
      (clash : A → A → Bool) (rows : List A) (r : A)
      → any (λ q. clash q r) rows ≡ true
      → unique clash (rows ++ r ∷ []) ≡ false
  unfolding unique any
  unique-append_clash clash [] r h = cc
  unique-append_clash clash (q ∷ rows) r h =
      ground (arith, unique-append_clash clash rows r, any_append_last (clash q) r rows)

  -- A table in which an index holds after an insert has no other row that clashes.
  pub absent_of_unique :
      (clash : A → A → Bool) (rows : List A) (r : A)
      → unique clash (rows ++ r ∷ []) ≡ true
      → any (λ q. clash q r) rows ≡ false
  unfolding unique any
  absent_of_unique clash [] r u = refl
  absent_of_unique clash (q ∷ rows) r u =
      ground (arith, absent_of_unique clash rows r, any_append_last (clash q) r rows)

  -- The row that was inserted is found by its key.
  pub first-select_append :
      (key : A → ℕ) (rows : List A) (r : A)
      → unique_key key (rows ++ r ∷ []) ≡ true
      → first (select (λ q. key q == key r) (rows ++ r ∷ [])) ≡ some r
  unfolding unique_key first
  first-select_append key rows r u =
      rw
        (
          select-append_found (λ q. key q == key r) rows r (ground arith),
          select_none (λ q. key q == key r) rows
              (absent_of_unique (λ a b. key a == key b) rows r u),
        )
        refl

  -- A row with a new key is the only one that a query for its key finds.
  pub select-append_key :
      (key : A → ℕ) (p : A → Bool) (rows : List A) (r : A)
      → unique_key key (rows ++ r ∷ []) ≡ true
      → ((q : A) → (key q == key r) ≡ false → p q ≡ false)
      → p r ≡ true
      → select p (rows ++ r ∷ []) ≡ r ∷ []
  unfolding unique_key
  select-append_key key p rows r u w h =
      rw
        (
          select-append_found p rows r h,
          select_none p rows (
              any-weaken (λ q. key q == key r) p rows w
                (absent_of_unique (λ a b. key a == key b) rows r u)),
        )
        refl

module _ {A B : Type 0} where
  pub map_append :
      (f : A → B) (rows : List A) (r : A) → map f (rows ++ r ∷ []) ≡ map f rows ++ f r ∷ []
  map_append f [] r = refl
  map_append f (q ∷ rows) r = ap (λ t. f q ∷ t) (map_append f rows r)
