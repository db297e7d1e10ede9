-- ===== src/Inventory/Supply.antt =====
-- The guards of app/inventory/service.py against selling what is not in stock, which stand before the
-- CHECK constraint `ck_inventory_quantity_nonneg` of app/inventory/models.py.
use vyapar_ai.Prelude.{ℕ, ◌≡◌, refl, Bool, true, false, Option, List, [], ◌∷◌, all, arith}
use vyapar_ai.Prelude.Int.{ℤ, pos, ◌+ℤ◌, leb_ℤ, ltb_ℤ, eqb_ℤ}
use vyapar_ai.Common.Result.{err}
use vyapar_ai.Models.Inventory.{Inventory, MovementType}
use vyapar_ai.Models.Rows.{select, one_or_none, assign}
use vyapar_ai.Database.Tables.{Tables}
use vyapar_ai.Database.Session.{Env, Session, ◌>>=◌, fresh, flush, or_rollback}
use vyapar_ai.Database.Ends.{Ends, bind-Ends, pure-Ends}
use vyapar_ai.Database.Steps.{after_raise_if, after_query, after_or_raise}
use vyapar_ai.Inventory.{stage_adjustment, write_stock, adjust_stock, insufficient}
use vyapar_ai.Inventory.Repository.{
  at_id, at_product, lock_for_update, lock_for_update_by_product, add_movement,
}
use vyapar_ai.Inventory.Stock.{adjusted}

-- No row has a stock below zero.
abbrev pub IsSupplied : Tables → Type 0
IsSupplied t = all (λ (r : Inventory). leb_ℤ (pos 0) r.quantity) t.inventories ≡ true

all-assign :
    (p : Inventory → Bool) (r : Inventory) (rows : List Inventory)
    → p r ≡ true
    → all p rows ≡ true
    → all p (assign (λ (q : Inventory). q.id) r rows) ≡ true
unfolding all assign
all-assign p r [] h k = refl
all-assign p r (q ∷ rows) h k = ground (arith, all-assign p r rows h)

enough_left : (a : ℤ) → ltb_ℤ a (pos 0) ≡ false → leb_ℤ (pos 0) a ≡ true
enough_left a h = ground arith

module _ ⦃env : Env⦄ (business_id : ℕ) (delta : ℤ) (kind : MovementType) (actor : Option ℕ) where
  write_stock-IsSupplied :
      (inv : Inventory) (s : Session)
      → IsSupplied s.work
      → Ends
          (λ r t. IsSupplied t.work)
          (λ e t. IsSupplied t.work)
          (write_stock business_id inv delta kind actor)
          s
  unfolding write_stock add_movement flush fresh ◌>>=◌
  write_stock-IsSupplied inv s h = record {
    at = ground (
      arith,
      h,
      all-assign (λ (r : Inventory). leb_ℤ (pos 0) r.quantity) (adjusted inv delta)
          s.work.inventories,
      enough_left (inv.quantity +ℤ delta),
    );
  }

  -- However a staged adjustment ends, also when its flush fails, no row that is pending in the open
  -- transaction is below zero, when none was before.
  pub stage_adjustment-IsSupplied :
      (product_id : ℕ) (s : Session)
      → IsSupplied s.work
      → Ends
          (λ r t. IsSupplied t.work)
          (λ e t. IsSupplied t.work)
          (stage_adjustment business_id product_id delta kind actor)
          s
  unfolding stage_adjustment lock_for_update_by_product
  stage_adjustment-IsSupplied product_id s h =
      after_raise_if _ _ _ (λ _. h)
        λ _.
          after_query _ _ (λ e _. h)
            λ o found.
              after_or_raise _ _ _ (λ _. h)
                λ inv e. bind-Ends _ _ (write_stock-IsSupplied inv s h) λ r t w. pure-Ends _ w

  -- An adjustment that asks for more than the stock of its row is refused by the guard, by both ways
  -- to adjust, before a write is sent: `stage_adjustment` leaves the session of its caller as it is,
  -- and `adjust_stock` rolls back what was pending. Both raise the error of an insufficient stock,
  -- and not one of the database. The change is not zero, and the row is the only one of its key and
  -- of its product in the business.
  pub oversold-insufficient :
      (inv : Inventory) (s : Session)
      → select (at_id business_id inv.id) s.work.inventories ≡ inv ∷ []
      → select (at_product business_id inv.product_id) s.work.inventories ≡ inv ∷ []
      → eqb_ℤ delta (pos 0) ≡ false
      → ltb_ℤ (inv.quantity +ℤ delta) (pos 0) ≡ true
      → (adjust_stock business_id inv.id delta kind actor s
          ≡ (err insufficient, record s { work = s.committed }))
        × (stage_adjustment business_id inv.product_id delta kind actor s ≡ (err insufficient, s))
  unfolding adjust_stock stage_adjustment write_stock lock_for_update lock_for_update_by_product
      or_rollback one_or_none ◌>>=◌
  oversold-insufficient inv s by_id by_product change below =
      (ground (arith, change, by_id, below), ground (arith, change, by_product, below))
