-- ===== src/Inventory/Ledger.antt =====
-- Stock and movement history of app/inventory/service.py stay in step.
use vyapar_ai.Prelude.{ℕ, ◌≡◌, refl, ap, ◌∙◌, true, Option, [], arith}
use vyapar_ai.Prelude.Int.{ℤ, ◌+ℤ◌, int_laws}
use vyapar_ai.Common.Error.{Error}
use vyapar_ai.Common.Event.{LowStock}
use vyapar_ai.Common.Result.{Result, ok, err}
use vyapar_ai.Models.Rows.{unique_key}
use vyapar_ai.Models.Rows.Assign.{select-holds}
use vyapar_ai.Models.Inventory.{Inventory, MovementType}
use vyapar_ai.Database.Tables.{Tables}
use vyapar_ai.Database.Session.{Env, Session}
use vyapar_ai.Database.Ends.{Unchanged}
use vyapar_ai.Inventory.{adjust_stock}
use vyapar_ai.Inventory.Repository.{at_id, at_product}
use vyapar_ai.Inventory.Stock.{Adjusts, Stages, adjust_stock-ok, adjust_stock-err}
use vyapar_ai.Inventory.Balance.{
  stock_of, moved_of, IsKeyed, at_same, stock_of-stocked, moved_of-stocked, stocked-IsKeyed,
}

-- The same change of stock and movements, seen from before and after.
abbrev pub InStep : Tables → Tables → Type 0
InStep t u = (b q : ℕ) → stock_of b q u +ℤ moved_of b q t ≡ stock_of b q t +ℤ moved_of b q u

swap_sums : (x y d : ℤ) → x +ℤ d +ℤ y ≡ x +ℤ (y +ℤ d)
swap_sums x y d = omega int_laws

pub in_step : (x y x' y' d : ℤ) → x' ≡ x +ℤ d → y' ≡ y +ℤ d → x' +ℤ y ≡ x +ℤ y'
in_step x y x' y' d e f = rw (e, f) (swap_sums x y d)

business_of_at_id :
    (business_id inventory_id : ℕ) (inv : Inventory)
    → at_id business_id inventory_id inv ≡ true
    → inv.business_id ≡ business_id
business_of_at_id business_id inventory_id inv h = ground arith

module _ ⦃env : Env⦄ (business_id inventory_id : ℕ) (delta : ℤ) (kind : MovementType)
    (actor : Option ℕ) (s : Session) (clean : s.work ≡ s.committed)
    (keyed : IsKeyed s.committed) where
  found_business :
      {r : Inventory} {t : Session} (a : Adjusts business_id inventory_id delta kind actor s r t)
      → a.inv.business_id ≡ business_id
  found_business a =
      business_of_at_id business_id inventory_id a.inv
        (select-holds (at_id business_id inventory_id) s.work.inventories {rest = []} a.found)

  keyed_work : IsKeyed s.work
  keyed_work = rw clean keyed

  -- An adjustment that returns has changed the committed stock of the product of its row by
  -- `delta`, and the stock of no other product and of no other business.
  -- The session has no pending writes before, and no two inventory rows have one primary key.
  pub adjust_stock-stock_of :
      {r : Inventory}
      → (adjust_stock business_id inventory_id delta kind actor s).0 ≡ ok r
      → (b q : ℕ)
      → stock_of b q (adjust_stock business_id inventory_id delta kind actor s).1.committed
        ≡ stock_of b q s.committed +ℤ at_same b q business_id r.product_id delta
  adjust_stock-stock_of {r} h b q =
      let a : Adjusts business_id inventory_id delta kind actor s r _ =
        adjust_stock-ok business_id inventory_id delta kind actor s clean h in
      ap (stock_of b q) (a.committed ∙ a.work)
      ∙ stock_of-stocked business_id delta kind actor (at_id business_id inventory_id) a.inv s
          keyed_work a.found b q
      ∙ rw (clean, found_business a, a.result) refl

  Adjusts-InStep :
      {r : Inventory} {t : Session}
      → Adjusts business_id inventory_id delta kind actor s r t
      → InStep s.committed t.committed
  Adjusts-InStep {t = t} a b q =
      in_step (stock_of b q s.committed) (moved_of b q s.committed) (stock_of b q t.committed)
        (moved_of b q t.committed) (at_same b q business_id a.inv.product_id delta)
        (ap (stock_of b q) (a.committed ∙ a.work)
          ∙ stock_of-stocked business_id delta kind actor (at_id business_id inventory_id) a.inv s
              keyed_work a.found b q
          ∙ rw (clean, found_business a) refl)
        (ap (moved_of b q) (a.committed ∙ a.work)
          ∙ moved_of-stocked business_id delta kind actor (at_id business_id inventory_id) a.inv s
              keyed_work a.found b q
          ∙ rw clean refl)

  InStep-result :
      (x : Result Inventory × Session)
      → ((r : Inventory) → x.0 ≡ ok r → Adjusts business_id inventory_id delta kind actor s r x.1)
      → ((e : Error) → x.0 ≡ err e → Unchanged s x.1)
      → InStep s.committed x.1.committed
  InStep-result (ok r, t) h k = Adjusts-InStep (h r refl)
  InStep-result (err e, t) h k = λ b q. rw (k e refl).0 refl

  -- However an adjustment ends, stock and recorded movements of each product of each business have
  -- changed by the same amount.
  -- The session has no pending writes before, and no two inventory rows have one primary key.
  pub adjust_stock-InStep :
      InStep s.committed (adjust_stock business_id inventory_id delta kind actor s).1.committed
  adjust_stock-InStep =
      InStep-result (adjust_stock business_id inventory_id delta kind actor s)
        (λ r h. adjust_stock-ok business_id inventory_id delta kind actor s clean h)
        (λ e h. adjust_stock-err business_id inventory_id delta kind actor s clean h)

product_of_at_product :
    (business_id product_id : ℕ) (inv : Inventory)
    → at_product business_id product_id inv ≡ true
    → (inv.product_id ≡ product_id) × (inv.business_id ≡ business_id)
product_of_at_product business_id product_id inv h = ground arith

-- What a staged adjustment does to stock and movements of the tables of the transaction.
module _ ⦃env : Env⦄ {business_id product_id : ℕ} {delta : ℤ} {kind : MovementType}
    {actor : Option ℕ} {s t : Session} {p : Option LowStock} (keyed : IsKeyed s.work)
    (g : Stages business_id product_id delta kind actor s p t) where
  row_of : (g.inv.product_id ≡ product_id) × (g.inv.business_id ≡ business_id)
  row_of =
      product_of_at_product business_id product_id g.inv
        (select-holds (at_product business_id product_id) s.work.inventories {rest = []} g.found)

  pub Stages-stock_of :
      (b q : ℕ)
      → stock_of b q t.work ≡ stock_of b q s.work +ℤ at_same b q business_id product_id delta
  Stages-stock_of b q =
      ap (stock_of b q) g.work
      ∙ stock_of-stocked business_id delta kind actor (at_product business_id product_id) g.inv s
          keyed g.found b q
      ∙ rw (row_of.0, row_of.1) refl

  pub Stages-moved_of :
      (b q : ℕ)
      → moved_of b q t.work ≡ moved_of b q s.work +ℤ at_same b q business_id product_id delta
  Stages-moved_of b q =
      ap (moved_of b q) g.work
      ∙ moved_of-stocked business_id delta kind actor (at_product business_id product_id) g.inv s
          keyed g.found b q
      ∙ rw (row_of.0) refl

  pub Stages-IsKeyed : IsKeyed t.work
  Stages-IsKeyed =
      ap (λ (w : Tables). unique_key (λ (r : Inventory). r.id) w.inventories) g.work
      ∙ stocked-IsKeyed business_id delta kind actor (at_product business_id product_id) g.inv s
          keyed g.found
