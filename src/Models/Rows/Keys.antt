-- ===== src/Models/Rows/Keys.antt =====
-- Rows and their primary keys: what a unique key says of queries and updates.
use vyapar_ai.Prelude.{
  ◌≡◌, refl, ap, ℕ, Bool, true, false, some, List, [], ◌∷◌, map, any, ◌==◌, arith, inl, inr,
  Bool-cases,
}
use vyapar_ai.Models.Rows.{select, first, assign, unique, unique_key}
use vyapar_ai.Models.Rows.Assign.{assign_absent}

module _ {A : Type 0} where
  module _ (key : A → ℕ) where
    -- A row that a query finds below `q` has another key than `q`.
    pub absent_of_select :
        (p : A → Bool) (k : ℕ) (r : A) (rows rest : List A)
        → any (λ q. k == key q) rows ≡ false
        → select p rows ≡ r ∷ rest
        → (k == key r) ≡ false
    unfolding any select
    absent_of_select p k r [] rest a h = cc
    absent_of_select p k r (q ∷ rows) rest a h = ground (arith, absent_of_select p k r rows rest)

    pub assign-head :
        (r s : A) (rows : List A)
        → unique_key key (r ∷ rows) ≡ true
        → key s ≡ key r
        → assign key s (r ∷ rows) ≡ s ∷ rows
    unfolding assign unique_key unique
    assign-head r s rows u e =
        let absent : any (λ q. key s == key q) rows ≡ false = rw e (ground arith) in
        rw (assign_absent key s rows absent) (ground arith)

    pub assign_cons :
        (q s : A) (rows : List A)
        → (key q == key s) ≡ false
        → assign key s (q ∷ rows) ≡ q ∷ assign key s rows
    unfolding assign
    assign_cons q s rows h = ground arith

    pub select-head :
        (p : A → Bool) (q r : A) (rows rest : List A)
        → p q ≡ true
        → select p (q ∷ rows) ≡ r ∷ rest
        → q ≡ r
    unfolding select
    select-head p q r rows rest t h = ground arith

    -- The row that a query finds is found by its key.
    pub first-select_key :
        (p : A → Bool) (r : A) (rows rest : List A)
        → unique_key key rows ≡ true
        → select p rows ≡ r ∷ rest
        → first (select (λ q. key q == key r) rows) ≡ some r
    unfolding select first unique_key unique
    first-select_key p r [] rest u h = cc
    first-select_key p r (q ∷ rows) rest u h = elim (Bool-cases (p q)) [
      | inl found ↦ let same : q ≡ r = select-head p q r rows rest found h in ground (arith, same)
      | inr other ↦
          let below : select p rows ≡ r ∷ rest = ground (arith, other) in
          let apart : (key q == key r) ≡ false =
            absent_of_select p (key q) r rows rest (ground arith) below in
          ground (arith, apart, first-select_key p r rows rest (ground arith) below)
    ]

    -- A query that finds one row finds it as it is written.
    pub select-assign :
        (p : A → Bool) (r s : A) (rows : List A)
        → unique_key key rows ≡ true
        → select p rows ≡ r ∷ []
        → key s ≡ key r
        → p s ≡ true
        → select p (assign key s rows) ≡ s ∷ []
    unfolding select unique_key unique
    select-assign p r s [] u h e t = cc
    select-assign p r s (q ∷ rows) u h e t = elim (Bool-cases (p q)) [
      | inl found ↦
          let same : q ≡ r = select-head p q r rows [] found h in
          let rest : select p rows ≡ [] = ground (arith, found) in
          rw (same, assign-head r s rows (rw same at u) e) (rw (t, rest) refl)
      | inr other ↦
          let below : select p rows ≡ r ∷ [] = ground (arith, other) in
          let apart : (key q == key r) ≡ false =
            absent_of_select p (key q) r rows [] (ground arith) below in
          rw (assign_cons q s rows (rw e apart))
            (rw other (select-assign p r s rows (ground arith) below e t))
    ]

module _ {A B : Type 0} (key : A → ℕ) (p : A → Bool) (f : A → B) where
  map-select_head :
      (r s : A) (rows : List A)
      → p s ≡ p r
      → f s ≡ f r
      → map f (select p (s ∷ rows)) ≡ map f (select p (r ∷ rows))
  unfolding select
  map-select_head r s rows e h = elim (Bool-cases (p r)) [
    | inl t ↦ rw (e, t) (ap (λ x. x ∷ map f (select p rows)) h)
    | inr t ↦ rw (e, t) refl
  ]

  map-select_cons :
      (q : A) (rows rest : List A)
      → map f (select p rows) ≡ map f (select p rest)
      → map f (select p (q ∷ rows)) ≡ map f (select p (q ∷ rest))
  unfolding select
  map-select_cons q rows rest h = elim (Bool-cases (p q)) [
    | inl t ↦ rw t (ap (λ x. f q ∷ x) h)
    | inr t ↦ rw t h
  ]

  -- An update that changes neither what a query looks at nor what it shows.
  pub map-select-assign :
      (r s : A) (rows : List A)
      → unique_key key rows ≡ true
      → first (select (λ q. key q == key r) rows) ≡ some r
      → key s ≡ key r
      → p s ≡ p r
      → f s ≡ f r
      → map f (select p (assign key s rows)) ≡ map f (select p rows)
  map-select-assign r s [] u h e ep ef = unfold assign in refl
  map-select-assign r s (q ∷ rows) u h e ep ef = elim (Bool-cases (key q == key r)) [
    | inl same ↦
        let it : q ≡ r = unfold select first in ground (arith, same) in
        rw (it, assign-head key r s rows (rw it at u) e) (map-select_head r s rows ep ef)
    | inr other ↦ rw (assign_cons key q s rows (rw e other)) (
        map-select_cons q (assign key s rows) rows (
          map-select-assign r s rows (unfold unique_key unique in ground arith)
            (unfold select first in ground (arith, other)) e ep ef))
  ]
