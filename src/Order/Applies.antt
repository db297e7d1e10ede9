-- ===== src/Order/Applies.antt =====
-- What the inventory effect of a transition of app/order/service.py does: `_apply_inventory`.
use mathlib.Core.Path.{subst}
use vyapar_ai.Prelude.{ℕ, ◌≡◌, refl, Option, List}
use vyapar_ai.Prelude.Int.{ℤ, pos, negsuc, ◌+ℤ◌, int_laws}
use vyapar_ai.Models.Order.{Order, OrderItem, InventoryEffect}
use vyapar_ai.Database.Session.{Env, Session}
use vyapar_ai.Database.Ends.{Ends, Held, pure-Ends, map-Ends, ok_injective}
use vyapar_ai.Database.Steps.{after_query}
use vyapar_ai.Inventory.Balance.{stock_of, moved_of, IsKeyed}
use vyapar_ai.Order.{stage_items, apply_inventory, apply_effect}
use vyapar_ai.Order.Repository.{items, items_of}
use vyapar_ai.Order.Stock.{change, StagesAll, stage_items-Ends}

-- The change of the stock of product `q` of business `b` by an effect on the lines of an order.
abbrev pub effect_change : InventoryEffect → ℕ → ℕ → ℕ → List OrderItem → ℤ
effect_change InventoryEffect.no_effect business_id b q lines = pos 0
effect_change InventoryEffect.decrement business_id b q lines =
    change (negsuc 0) business_id b q lines
effect_change InventoryEffect.restore business_id b q lines = change (pos 1) business_id b q lines

module _ ⦃env : Env⦄ (business_id : ℕ) (actor : Option ℕ) (s : Session)
    (keyed : IsKeyed s.work) where
  -- What the inventory effect of a transition has done: nothing is committed.
  pub record Applies (effect : InventoryEffect) (order : Order) (t : Session) : Type 0 where
    pub held : Held s t
    pub keyed_after : IsKeyed t.work
    pub orders : t.work.orders ≡ s.work.orders
    pub payments : t.work.payments ≡ s.work.payments
    pub order_items : t.work.order_items ≡ s.work.order_items
    pub stock :
        (b q : ℕ)
        → stock_of b q t.work
          ≡ stock_of b q s.work +ℤ effect_change effect business_id b q (items_of order s.work)
    pub moved :
        (b q : ℕ)
        → moved_of b q t.work
          ≡ moved_of b q s.work +ℤ effect_change effect business_id b q (items_of order s.work)

  apply_inventory-Ends :
      (order : Order) (sign : ℤ)
      → Ends
          (λ _ t. StagesAll business_id sign actor (items_of order s.work) s t)
          (λ e t. Held s t)
          (apply_inventory business_id order sign actor)
          s
  unfolding apply_inventory items
  apply_inventory-Ends order sign =
      after_query _ _ (λ e _. (refl, refl))
        λ lines e.
          subst
            (λ ls.
              Ends (λ _ t. StagesAll business_id sign actor (items_of order s.work) s t)
                (λ e t. Held s t) (stage_items business_id sign actor ls) s)
            (ok_injective e)
            (stage_items-Ends business_id sign actor (items_of order s.work) s keyed)

  pub apply_effect-Ends :
      (effect : InventoryEffect) (order : Order)
      → Ends
          (λ _ t. Applies effect order t)
          (λ e t. Held s t)
          (apply_effect effect business_id order actor)
          s
  unfolding apply_effect
  apply_effect-Ends InventoryEffect.no_effect order = pure-Ends _ (record {
    held = (refl, refl);
    keyed_after = keyed;
    orders = refl;
    payments = refl;
    order_items = refl;
    stock = λ b q. omega int_laws;
    moved = λ b q. omega int_laws;
  })
  apply_effect-Ends InventoryEffect.decrement order =
      map-Ends (apply_inventory-Ends order (negsuc 0)) (λ a t h. record {
        held = h.held;
        keyed_after = h.keyed;
        orders = h.orders;
        payments = h.payments;
        order_items = h.order_items;
        stock = h.stock;
        moved = h.moved;
      })
  apply_effect-Ends InventoryEffect.restore order =
      map-Ends (apply_inventory-Ends order (pos 1)) (λ a t h. record {
        held = h.held;
        keyed_after = h.keyed;
        orders = h.orders;
        payments = h.payments;
        order_items = h.order_items;
        stock = h.stock;
        moved = h.moved;
      })
