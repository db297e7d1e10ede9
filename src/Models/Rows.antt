-- ===== src/Models/Rows.antt =====
-- Tables as lists of rows, in the order of insertion: the queries and updates that the
-- repositories send, and the checks that a constraint of `__table_args__` stands for.
pub mod Assign
pub mod Append
pub mod Keys
pub mod Sum
use vyapar_ai.Prelude.{
  ℕ, Bool, true, not, ◌&&◌, Option, none, some, List, [], ◌∷◌, any, ◌==◌, leb, if◌then◌else◌,
}
use vyapar_ai.Common.Error.{multiple_results_found}
use vyapar_ai.Common.Result.{Result, ok, err}

module _ {A : Type 0} where
  -- `select(...).where(p)`
  unfoldable pub select : (A → Bool) → List A → List A
  select p [] = []
  select p (r ∷ rows) = let rest = select p rows in if p r then r ∷ rest else rest

  -- `.one_or_none()`
  unfoldable pub one_or_none : List A → Result (Option A)
  one_or_none [] = ok none
  one_or_none (r ∷ []) = ok (some r)
  one_or_none (r ∷ q ∷ rows) = err multiple_results_found

  -- `.first()`
  unfoldable pub first : List A → Option A
  first [] = none
  first (r ∷ rows) = some r

  -- `.order_by(key)`, a stable sort
  unfoldable pub insert_by : (A → ℕ) → A → List A → List A
  insert_by key r [] = r ∷ []
  insert_by key r (q ∷ rows) =
      let later = q ∷ insert_by key r rows in if leb (key r) (key q) then r ∷ q ∷ rows else later

  unfoldable pub order_by : (A → ℕ) → List A → List A
  unfolding insert_by
  order_by key [] = []
  order_by key (r ∷ rows) = insert_by key r (order_by key rows)

  -- An UPDATE of the row that has the primary key of `r`.
  unfoldable pub assign : (A → ℕ) → A → List A → List A
  assign key r [] = []
  assign key r (q ∷ rows) = (if key q == key r then r else q) ∷ assign key r rows

  -- A unique index: no two rows clash.
  unfoldable pub unique : (A → A → Bool) → List A → Bool
  unfolding any
  unique clash [] = true
  unique clash (r ∷ rows) = not (any (clash r) rows) && unique clash rows

  -- The index of the primary key.
  unfoldable pub unique_key : (A → ℕ) → List A → Bool
  unfolding unique
  unique_key key = unique (λ a b. key a == key b)
