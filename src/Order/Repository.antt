-- ===== src/Order/Repository.antt =====
-- app/order/repository.py, and the relationship `Order.items` of app/order/models.py.
use mathlib.Core.List.{reverse}
use vyapar_ai.Prelude.{ℕ, Bool, ◌&&◌, Option, List, [], ◌∷◌, ◌++◌, ◌==◌}
use vyapar_ai.Common.Result.{ok}
use vyapar_ai.Models.Order.{Order, OrderItem}
use vyapar_ai.Models.Rows.{select, one_or_none, order_by, assign}
use vyapar_ai.Database.Tables.{Tables}
use vyapar_ai.Database.Session.{Env, Exec, pure, query, modify, fresh, flush, reload, ◌>>=◌, ◌>>◌}

-- `Order.id == order_id, Order.business_id == business_id`
abbrev pub at_id : ℕ → ℕ → Order → Bool
at_id business_id order_id o = o.id == order_id && o.business_id == business_id

unfoldable pub get : ℕ → ℕ → Exec (Option Order)
get business_id order_id = query (λ t. one_or_none (select (at_id business_id order_id) t.orders))

-- `order_by(Order.id.desc())`
unfoldable pub list : ℕ → Exec (List Order)
list business_id = query (λ t. ok (
    reverse (
      order_by (λ (o : Order). o.id)
        (select (λ (o : Order). o.business_id == business_id) t.orders))))

-- `order.items`
unfoldable pub items_of : Order → Tables → List OrderItem
items_of order t =
    order_by (λ (i : OrderItem). i.id)
      (select (λ (i : OrderItem). i.order_id == order.id) t.order_items)

unfoldable pub items : Order → Exec (List OrderItem)
unfolding items_of
items order = query (λ t. ok (items_of order t))

-- The attributes of a loaded row, written by the next flush.
abbrev pub set_order : Order → Tables → Tables
set_order o t = record t { orders = assign (λ (p : Order). p.id) o t.orders }

abbrev pub insert_order : Order → Tables → Tables
insert_order o t = record t { orders = t.orders ++ o ∷ [] }

abbrev pub insert_item : OrderItem → Tables → Tables
insert_item i t = record t { order_items = t.order_items ++ i ∷ [] }

-- `session.refresh(order)`
abbrev pub refresh : Order → Exec Order
refresh = reload (λ (o : Order). o.id) (λ t. t.orders)

module _ ⦃env : Env⦄ where
  -- `OrderRepository.add`
  unfoldable pub add : Order → Exec Order
  unfolding flush
  add order = do
    key ← fresh
    let row = record order { id = key }
    modify (insert_order row)
    flush
    pure row

  -- `OrderItemRepository.add`
  unfoldable pub add_item : OrderItem → Exec OrderItem
  unfolding flush
  add_item item = do
    key ← fresh
    let row = record item { id = key }
    modify (insert_item row)
    flush
    pure row
