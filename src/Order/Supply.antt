-- ===== src/Order/Supply.antt =====
-- No transition of app/order/service.py stages a stock below zero: it does not leave that to the CHECK
-- constraint of the commit.
use vyapar_ai.Prelude.{ℕ, Option, List, [], ◌∷◌}
use vyapar_ai.Prelude.Int.{ℤ, pos, negsuc, ◌*ℤ◌}
use vyapar_ai.Models.Order.{Order, OrderItem, InventoryEffect}
use vyapar_ai.Database.Session.{Env, Session}
use vyapar_ai.Database.Ends.{Ends, Ends-end, bind-Ends, pure-Ends}
use vyapar_ai.Database.Steps.{after_query}
use vyapar_ai.Inventory.Supply.{IsSupplied, stage_adjustment-IsSupplied}
use vyapar_ai.Order.{movement_for, stage_items, apply_inventory, apply_effect}
use vyapar_ai.Order.Repository.{items}

module _ ⦃env : Env⦄ (business_id : ℕ) (actor : Option ℕ) where
  stage_items-IsSupplied :
      (sign : ℤ) (lines : List OrderItem) (s : Session)
      → IsSupplied s.work
      → Ends
          (λ r t. IsSupplied t.work)
          (λ e t. IsSupplied t.work)
          (stage_items business_id sign actor lines)
          s
  unfolding stage_items
  stage_items-IsSupplied sign [] s h = pure-Ends _ h
  stage_items-IsSupplied sign (item ∷ lines) s h =
      bind-Ends _ _
        (stage_adjustment-IsSupplied business_id (sign *ℤ item.quantity) (movement_for sign) actor
          item.product_id s h)
        λ p t k. bind-Ends _ _ (stage_items-IsSupplied sign lines t k) λ events u l. pure-Ends _ l

  apply_inventory-IsSupplied :
      (order : Order) (sign : ℤ) (s : Session)
      → IsSupplied s.work
      → Ends
          (λ r t. IsSupplied t.work)
          (λ e t. IsSupplied t.work)
          (apply_inventory business_id order sign actor)
          s
  unfolding apply_inventory items
  apply_inventory-IsSupplied order sign s h =
      after_query _ _ (λ e _. h) λ lines _. stage_items-IsSupplied sign lines s h

  apply_effect-Ends :
      (effect : InventoryEffect) (order : Order) (s : Session)
      → IsSupplied s.work
      → Ends
          (λ r t. IsSupplied t.work)
          (λ e t. IsSupplied t.work)
          (apply_effect effect business_id order actor)
          s
  unfolding apply_effect
  apply_effect-Ends InventoryEffect.no_effect order s h = pure-Ends _ h
  apply_effect-Ends InventoryEffect.decrement order s h =
      apply_inventory-IsSupplied order (negsuc 0) s h
  apply_effect-Ends InventoryEffect.restore order s h = apply_inventory-IsSupplied order (pos 1) s h

  -- However the inventory effect of a transition ends, for an order with any lines, and also when it
  -- raises at one of them, no row that is pending in the open transaction is below zero, when none
  -- was before. Nothing has been committed by then, so this does not rest on the database.
  pub apply_effect-IsSupplied :
      (effect : InventoryEffect) (order : Order) (s : Session)
      → IsSupplied s.work
      → IsSupplied (apply_effect effect business_id order actor s).1.work
  apply_effect-IsSupplied effect order s h = Ends-end (apply_effect-Ends effect order s h)
