-- ===== src/Models/Rows/Sum.antt =====
-- Sums over the rows of a table, under inserts and updates.
use vyapar_ai.Prelude.{
  ℕ, ◌≡◌, Bool, true, false, List, [], ◌∷◌, ◌++◌, ◌==◌, arith, inl, inr, Bool-cases,
}
use vyapar_ai.Prelude.Int.{ℤ, pos, ◌+ℤ◌, int_laws, +ℤ_frame}
use vyapar_ai.Models.Rows.{select, assign, unique, unique_key}
use vyapar_ai.Models.Rows.Keys.{absent_of_select, assign-head, assign_cons, select-head}

module _ {A : Type 0} where
  unfoldable pub sum_by : (A → ℤ) → List A → ℤ
  sum_by w [] = pos 0
  sum_by w (r ∷ rows) = w r +ℤ sum_by w rows

  pub sum_by-append :
      (w : A → ℤ) (rows rest : List A) → sum_by w (rows ++ rest) ≡ sum_by w rows +ℤ sum_by w rest
  unfolding sum_by
  sum_by-append w [] rest = omega int_laws
  sum_by-append w (r ∷ rows) rest = rw (sum_by-append w rows rest) (omega int_laws)

  module _ (key : A → ℕ) where
    sum_by-assign_head :
        (w : A → ℤ) (r s : A) (rows : List A)
        → unique_key key (r ∷ rows) ≡ true
        → key s ≡ key r
        → sum_by w (assign key s (r ∷ rows)) +ℤ w r ≡ sum_by w (r ∷ rows) +ℤ w s
    unfolding sum_by
    sum_by-assign_head w r s rows u e = rw (assign-head key r s rows u e) (omega int_laws)

    sum_by-assign_cons :
        (w : A → ℤ) (q r s : A) (rows : List A)
        → (key q == key s) ≡ false
        → sum_by w (assign key s rows) +ℤ w r ≡ sum_by w rows +ℤ w s
        → sum_by w (assign key s (q ∷ rows)) +ℤ w r ≡ sum_by w (q ∷ rows) +ℤ w s
    unfolding sum_by
    sum_by-assign_cons w q r s rows apart h =
        rw (assign_cons key q s rows apart)
          (+ℤ_frame (w q) (sum_by w (assign key s rows)) (w r) (sum_by w rows) (w s) h)

    -- An update of the row that a query found changes a sum by what the row weighs.
    pub sum_by-assign :
        (w : A → ℤ) (p : A → Bool) (r s : A) (rows rest : List A)
        → unique_key key rows ≡ true
        → key s ≡ key r
        → select p rows ≡ r ∷ rest
        → sum_by w (assign key s rows) +ℤ w r ≡ sum_by w rows +ℤ w s
    unfolding unique_key unique select
    sum_by-assign w p r s [] rest u e h = cc
    sum_by-assign w p r s (q ∷ rows) rest u e h = elim (Bool-cases (p q)) [
      | inl found ↦
          let same : q ≡ r = select-head key p q r rows rest found h in
          unfold sum_by in rw same (sum_by-assign_head w r s rows (rw same at u) e)
      | inr other ↦
          let below : select p rows ≡ r ∷ rest = ground (arith, other) in
          let apart : (key q == key r) ≡ false =
            absent_of_select key p (key q) r rows rest (ground arith) below in
          sum_by-assign_cons w q r s rows (rw e apart)
            (sum_by-assign w p r s rows rest (ground arith) e below)
    ]
