-- ===== src/Inventory/Balance.antt =====
-- Stock levels and recorded movements as sums over the tables, and what an adjustment does to them.
use vyapar_ai.Prelude.{
  ℕ, ◌≡◌, refl, ap, ◌∙◌, Bool, true, ◌&&◌, Option, [], ◌∷◌, ◌==◌, Bool-cases, inl, inr,
  if◌then◌else◌,
}
use vyapar_ai.Prelude.Int.{ℤ, pos, ◌+ℤ◌, int_laws, parts_of_eq}
use vyapar_ai.Models.Rows.{select, unique_key}
use vyapar_ai.Models.Rows.Assign.{unique_key-assign}
use vyapar_ai.Models.Rows.Sum.{sum_by, sum_by-append, sum_by-assign}
use vyapar_ai.Models.Inventory.{Inventory, StockMovement, MovementType}
use vyapar_ai.Database.Tables.{Tables}
use vyapar_ai.Database.Session.{Env, Session}
use vyapar_ai.Inventory.Repository.{at_product}
use vyapar_ai.Inventory.Stock.{adjusted, stocked}

-- What a row adds to the stock of a product of a business.
abbrev pub stock_weight : ℕ → ℕ → Inventory → ℤ
stock_weight business_id product_id r =
    if at_product business_id product_id r then r.quantity else pos 0

-- The stock of a product: the quantity of its row, of which the tables have at most one.
unfoldable pub stock_of : ℕ → ℕ → Tables → ℤ
unfolding sum_by
stock_of business_id product_id t = sum_by (stock_weight business_id product_id) t.inventories

abbrev pub movement_weight : ℕ → ℕ → StockMovement → ℤ
movement_weight business_id product_id m =
    if m.product_id == product_id && m.business_id == business_id then m.delta else pos 0

-- The sum of the recorded movements of a product.
unfoldable pub moved_of : ℕ → ℕ → Tables → ℤ
unfolding sum_by
moved_of business_id product_id t = sum_by (movement_weight business_id product_id) t.movements

-- The inventory table has no primary key twice.
abbrev pub IsKeyed : Tables → Type 0
IsKeyed t = unique_key (λ (r : Inventory). r.id) t.inventories ≡ true

-- `delta` where the two products and businesses are the same, and otherwise nothing.
abbrev pub at_same : ℕ → ℕ → ℕ → ℕ → ℤ → ℤ
at_same business_id product_id b p delta =
    if p == product_id && b == business_id then delta else pos 0

cancel_common : (x y a d : ℤ) → x +ℤ a ≡ y +ℤ (a +ℤ d) → x ≡ y +ℤ d
cancel_common x y a d h = omega (int_laws, parts_of_eq h)

add_zero_ℤ : (x : ℤ) → x +ℤ pos 0 ≡ x
add_zero_ℤ x = omega int_laws

weight-adjusted :
    (business_id product_id : ℕ) (inv : Inventory) (delta : ℤ)
    → stock_weight business_id product_id (adjusted inv delta)
      ≡ stock_weight business_id product_id inv
        +ℤ at_same business_id product_id inv.business_id inv.product_id delta
weight-adjusted business_id product_id inv delta =
    elim (Bool-cases (at_product business_id product_id inv)) [
      | inl e ↦ rw e refl
      | inr e ↦ rw e (omega int_laws)
    ]

module _ ⦃env : Env⦄ (business_id : ℕ) (delta : ℤ) (kind : MovementType) (actor : Option ℕ)
    (p : Inventory → Bool) (inv : Inventory) (s : Session) (keyed : IsKeyed s.work)
    (found : select p s.work.inventories ≡ inv ∷ []) where
  -- The stock of every product, of every business.
  pub stock_of-stocked :
      (b q : ℕ)
      → stock_of b q (stocked business_id delta kind actor inv s)
        ≡ stock_of b q s.work +ℤ at_same b q inv.business_id inv.product_id delta
  unfolding stock_of
  stock_of-stocked b q = cancel_common _ _ (stock_weight b q inv) _ (
      sum_by-assign (λ (r : Inventory). r.id) (stock_weight b q) p inv (adjusted inv delta)
        s.work.inventories [] keyed refl found
      ∙ ap (λ x. sum_by (stock_weight b q) s.work.inventories +ℤ x) (weight-adjusted b q inv delta))

  pub moved_of-stocked :
      (b q : ℕ)
      → moved_of b q (stocked business_id delta kind actor inv s)
        ≡ moved_of b q s.work +ℤ at_same b q business_id inv.product_id delta
  unfolding moved_of
  moved_of-stocked b q =
      sum_by-append (movement_weight b q) s.work.movements _
      ∙ ap (λ x. sum_by (movement_weight b q) s.work.movements +ℤ x) (add_zero_ℤ _)

  pub stocked-IsKeyed : IsKeyed (stocked business_id delta kind actor inv s)
  stocked-IsKeyed =
      unique_key-assign (λ (r : Inventory). r.id) (adjusted inv delta) s.work.inventories ∙ keyed
