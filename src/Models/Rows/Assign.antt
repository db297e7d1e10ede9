-- ===== src/Models/Rows/Assign.antt =====
-- What the queries of Models/Rows find after an update.
use vyapar_ai.Prelude.{
  if◌then◌else◌, sym, ap, ℕ, ◌≡◌, refl, Bool, true, false, some, List, [], ◌∷◌, any, ◌==◌, arith,
  inl, inr, Bool-cases,
}
use vyapar_ai.Common.Result.{ok}
use vyapar_ai.Models.Rows.{select, one_or_none, first, assign, unique, unique_key}

module _ {A : Type 0} where
  pub select_of_one_or_none :
      (rows : List A) {r : A} → one_or_none rows ≡ ok (some r) → rows ≡ r ∷ []
  unfolding one_or_none
  select_of_one_or_none [] h = cc
  select_of_one_or_none (q ∷ []) h = cc
  select_of_one_or_none (q ∷ p ∷ rows) h = cc

  -- A row that a query finds satisfies its condition.
  pub select-holds :
      (p : A → Bool) (rows : List A) {r : A} {rest : List A} → select p rows ≡ r ∷ rest → p r ≡ true
  unfolding select
  select-holds p [] h = cc
  select-holds p (q ∷ rows) {rest = rest} h = elim (Bool-cases (p q)) [
    | inl e ↦ ground (arith, e)
    | inr e ↦ select-holds p rows {rest = rest} (ground (arith, e))
  ]

  module _ (key : A → ℕ) where
    -- The row that was written is found by its key.
    pub first-select-assign :
        (p : A → Bool) (r s : A) (rows rest : List A)
        → key s ≡ key r
        → select p rows ≡ r ∷ rest
        → first (select (λ q. key q == key s) (assign key s rows)) ≡ some s
    unfolding select first assign
    first-select-assign p r s [] rest e h = cc
    first-select-assign p r s (q ∷ rows) rest e h =
        ground (arith, first-select-assign p r s rows rest e)

    -- A key that occurs nowhere is written nowhere.
    pub assign_absent :
        (s : A) (rows : List A) → any (λ q. key s == key q) rows ≡ false → assign key s rows ≡ rows
    unfolding assign any
    assign_absent s [] h = refl
    assign_absent s (q ∷ rows) h = ground (arith, assign_absent s rows)

    -- The keys stay as they are.
    pub any-assign :
        (k : ℕ) (s : A) (rows : List A)
        → any (λ q. k == key q) (assign key s rows) ≡ any (λ q. k == key q) rows
    unfolding assign any
    any-assign k s [] = refl
    any-assign k s (q ∷ rows) = ground (arith, any-assign k s rows)

    pub unique_key-assign :
        (s : A) (rows : List A) → unique_key key (assign key s rows) ≡ unique_key key rows
    unfolding unique_key unique assign
    unique_key-assign s [] = refl
    unique_key-assign s (q ∷ rows) =
        ground (arith, unique_key-assign s rows, any-assign (key q) s rows)

    -- Wherever a query finds the key of the row that was written, it finds that row.
    pub select-assign-head :
        (p : A → Bool) (s : A) (rows : List A) {r : A} {rest : List A}
        → select p (assign key s rows) ≡ r ∷ rest
        → key r ≡ key s
        → r ≡ s
    unfolding select assign
    select-assign-head p s [] h e = cc
    select-assign-head p s (q ∷ rows) {r = r} {rest = rest} h e =
        elim (Bool-cases (p (if key q == key s then s else q))) [
          | inl there ↦ written (key q == key s) refl (head_of there)
          | inr other ↦ select-assign-head p s rows {rest = rest} (rw other at h) e
        ]
      where
        head_of : p (if key q == key s then s else q) ≡ true → (if key q == key s then s else q) ≡ r
        head_of there = cc (rw there at h)

        written : (b : Bool) → (key q == key s) ≡ b → (if b then s else q) ≡ r → r ≡ s
        written true eq f = sym f
        written false eq f = ground (arith, ap key f)
