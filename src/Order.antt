-- ===== src/Order.antt =====
-- app/order/service.py: `OrderService`.
pub mod Repository
pub mod Totals
pub mod Stock
pub mod Applies
pub mod Transition
pub mod Effects
pub mod Outcome
pub mod Undo
pub mod Lifecycle
pub mod Pricing
pub mod Supply
use Prim.Native.String.{◌++◌ as str_append}
use vyapar_ai.Prelude.{ℕ, String, Bool, false, Option, none, some, List, [], ◌∷◌, if◌then◌else◌}
use vyapar_ai.Prelude.Int.{ℤ, pos, negsuc, ◌*ℤ◌, ltb_ℤ}
use vyapar_ai.Common.Error.{Error, not_found_error, validation_error, conflict_error}
use vyapar_ai.Common.Event.{LowStock, low_stock, order_created, order_confirmed, order_cancelled}
use vyapar_ai.Common.Decimal.{Decimal}
use vyapar_ai.Models.Inventory.{MovementType, sale, restock}
use vyapar_ai.Models.Order.{
  Order, OrderItem, OrderStatus, OrderEvent, InventoryEffect, transitions, status_value,
  event_value,
}
use vyapar_ai.Catalog
use vyapar_ai.Customer
use vyapar_ai.Inventory.{stage_adjustment, publish_pending}
use vyapar_ai.Database.Session.{
  Env, Exec, pure, raise, lift, or_raise, ◌>>=◌, ◌>>◌, modify, or_rollback, publish, commit,
}
use Repository.{get, list, items, add, add_item, set_order, refresh}
use Totals.{compute_order_totals}

-- app/order/schemas.py: what a client submits.
pub record OrderItemIn : Type 0 where
  pub product_id : ℕ
  pub quantity : ℤ

pub record OrderCreate : Type 0 where
  pub customer_id : ℕ
  pub items : List OrderItemIn

abbrev pub no_order : Error
no_order = not_found_error "order not found"

-- `f"cannot apply {event.value} to an order in {order.status.value}"`
abbrev pub cannot_apply : OrderEvent → OrderStatus → Error
cannot_apply event status = conflict_error (
    str_append "cannot apply "
      (str_append (event_value event) (str_append " to an order in " (status_value status))))

unfoldable pub get_order : ℕ → ℕ → Exec Order
unfolding get
get_order business_id order_id = do found ← get business_id order_id; or_raise found no_order

unfoldable pub list_orders : ℕ → Exec (List Order)
unfolding list
list_orders business_id = list business_id

-- `MovementType.SALE if sign < 0 else MovementType.RESTOCK`
abbrev pub movement_for : ℤ → MovementType
movement_for sign = if ltb_ℤ sign (pos 0) then sale else restock

abbrev pub cons_pending : Option LowStock → List LowStock → List LowStock
cons_pending none events = events
cons_pending (some e) events = e ∷ events

abbrev pub publish_all : List LowStock → Exec (Unit {0})
publish_all [] = pure tt
publish_all (e ∷ events) = do publish (low_stock e); publish_all events

-- `_publish_lifecycle`
abbrev pub publish_lifecycle : Order → OrderStatus → Exec (Unit {0})
publish_lifecycle order OrderStatus.confirmed =
    publish (order_confirmed order.business_id order.id order.customer_id)
publish_lifecycle order OrderStatus.cancelled =
    publish (order_cancelled order.business_id order.id order.customer_id)
publish_lifecycle order _ = pure tt

-- The lines of a new order, with the price and the name of each product as they are now, and the
-- pairs of price and quantity for the totals.
unfoldable pub snapshot_items : ℕ → List OrderItemIn → Exec (List OrderItem × List (Decimal × ℤ))
unfolding Catalog.Repository.get
snapshot_items business_id [] = pure ([], [])
snapshot_items business_id (line ∷ lines) = do
  found ← Catalog.Repository.get business_id line.product_id false
  product ← or_raise found (validation_error "product not found or unavailable for this business")
  rest ← snapshot_items business_id lines
  let item : OrderItem = record {
    id = 0;
    business_id = business_id;
    order_id = 0;
    product_id = product.id;
    product_name = product.name;
    unit_price = product.price_amt;
    quantity = line.quantity;
  }
  pure (item ∷ rest.0, (product.price_amt, line.quantity) ∷ rest.1)

module _ ⦃env : Env⦄ where
  -- `for item in item_models: item.order_id = order.id; self._items.add(item)`
  unfoldable pub add_items : ℕ → List OrderItem → Exec (Unit {0})
  unfolding add_item
  add_items order_id [] = pure tt
  add_items order_id (item ∷ rest) = do
    add_item (record item { order_id = order_id })
    add_items order_id rest

  unfoldable pub create_order : Decimal → ℕ → OrderCreate → Exec Order
  unfolding Customer.Repository.get snapshot_items compute_order_totals add add_items commit
  create_order tax_rate business_id payload = do
    customer ← Customer.Repository.get business_id payload.customer_id false
    or_raise customer (not_found_error "customer not found")
    lines ← snapshot_items business_id payload.items
    totals ← lift (compute_order_totals lines.1 tax_rate)
    order ← or_rollback (do
      order ← add (record {
        id = 0;
        business_id = business_id;
        customer_id = payload.customer_id;
        status = OrderStatus.created;
        tax_amt = totals.1;
        total_amt = totals.2;
      })
      add_items order.id lines.0
      commit
      pure order)
    refreshed ← refresh order
    publish (order_created business_id refreshed.id refreshed.customer_id)
    pure refreshed

  -- The loop of `_apply_inventory`: the pending events of the lines, in order.
  unfoldable pub stage_items : ℕ → ℤ → Option ℕ → List OrderItem → Exec (List LowStock)
  unfolding stage_adjustment
  stage_items business_id sign actor_user_id [] = pure []
  stage_items business_id sign actor_user_id (item ∷ rest) = do
    pending ←
        stage_adjustment business_id item.product_id (sign *ℤ item.quantity) (movement_for sign)
          actor_user_id
    events ← stage_items business_id sign actor_user_id rest
    pure (cons_pending pending events)

  -- `_apply_inventory`
  unfoldable pub apply_inventory : ℕ → Order → ℤ → Option ℕ → Exec (List LowStock)
  unfolding items stage_items
  apply_inventory business_id order sign actor_user_id = do
    lines ← items order
    stage_items business_id sign actor_user_id lines

  -- The inventory effect of a rule: `sign=-1` decrements, `sign=1` restores.
  unfoldable pub apply_effect : InventoryEffect → ℕ → Order → Option ℕ → Exec (List LowStock)
  unfolding apply_inventory
  apply_effect InventoryEffect.no_effect business_id order actor_user_id = pure []
  apply_effect InventoryEffect.decrement business_id order actor_user_id =
      apply_inventory business_id order (negsuc 0) actor_user_id
  apply_effect InventoryEffect.restore business_id order actor_user_id =
      apply_inventory business_id order (pos 1) actor_user_id

  unfoldable pub transition : ℕ → ℕ → OrderEvent → Option ℕ → Exec Order
  unfolding get_order apply_effect commit transitions
  transition business_id order_id event actor_user_id = do
    order ← get_order business_id order_id
    rule ← or_raise (transitions order.status event) (cannot_apply event order.status)
    let changed = record order { status = rule.to }
    pending ← or_rollback (do
      pending ← apply_effect rule.effect business_id order actor_user_id
      modify (set_order changed)
      commit
      pure pending)
    refreshed ← refresh changed
    publish_all pending
    publish_lifecycle refreshed rule.to
    pure refreshed
