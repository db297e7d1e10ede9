-- ===== src/Models/Order.antt =====
-- app/order/models.py: orders, their lines and the guarded lifecycle.
use vyapar_ai.Prelude.{ℕ, String, Bool, ◌&&◌, Option, none, some, List, all}
use vyapar_ai.Prelude.Int.{ℤ, pos, ltb_ℤ}
use vyapar_ai.Common.Decimal
use vyapar_ai.Common.Decimal.{Decimal, from_int}
use vyapar_ai.Models.Rows.{unique_key}

pub data OrderStatus : Type 0 where
  created confirmed paid packed shipped delivered completed cancelled : OrderStatus

pub data OrderEvent : Type 0 where
  confirm cancel pay pack ship deliver close : OrderEvent

-- The side effect that a transition has on inventory.
pub data InventoryEffect : Type 0 where
  no_effect decrement restore : InventoryEffect

pub record Transition : Type 0 where
  pub to : OrderStatus
  pub effect : InventoryEffect

abbrev transition_to : OrderStatus → InventoryEffect → Option Transition
transition_to s e = some (record { to = s; effect = e })

-- `TRANSITIONS.get((status, event))`
unfoldable pub transitions : OrderStatus → OrderEvent → Option Transition
transitions created confirm = transition_to confirmed decrement
transitions created cancel = transition_to cancelled no_effect
transitions confirmed pay = transition_to paid no_effect
transitions confirmed cancel = transition_to cancelled restore
transitions paid pack = transition_to packed no_effect
transitions packed ship = transition_to shipped no_effect
transitions shipped deliver = transition_to delivered no_effect
transitions delivered close = transition_to completed no_effect
transitions _ _ = none

-- `status is OrderStatus.CONFIRMED`
abbrev pub is_confirmed : OrderStatus → Bool
is_confirmed confirmed = Bool.true
is_confirmed _ = Bool.false

-- `.value` of a member
abbrev pub status_value : OrderStatus → String
status_value created = "CREATED"
status_value confirmed = "CONFIRMED"
status_value paid = "PAID"
status_value packed = "PACKED"
status_value shipped = "SHIPPED"
status_value delivered = "DELIVERED"
status_value completed = "COMPLETED"
status_value cancelled = "CANCELLED"

abbrev pub event_value : OrderEvent → String
event_value confirm = "CONFIRM"
event_value cancel = "CANCEL"
event_value pay = "PAY"
event_value pack = "PACK"
event_value ship = "SHIP"
event_value deliver = "DELIVER"
event_value close = "CLOSE"

pub record Order : Type 0 where
  pub id : ℕ
  pub business_id : ℕ
  pub customer_id : ℕ
  pub status : OrderStatus
  pub tax_amt : Decimal
  pub total_amt : Decimal

pub record OrderItem : Type 0 where
  pub id : ℕ
  pub business_id : ℕ
  pub order_id : ℕ
  pub product_id : ℕ
  pub product_name : String
  pub unit_price : Decimal
  pub quantity : ℤ

-- `OrderItem.line_total`
unfoldable pub line_total : OrderItem → Decimal
unfolding Decimal.mul
line_total item = Decimal.mul item.unit_price (from_int item.quantity)

-- The primary keys and `ck_order_item_quantity_positive`.
unfoldable pub orders_admitted : List Order → Bool
unfolding unique_key
orders_admitted rows = unique_key (λ (o : Order). o.id) rows

unfoldable pub order_items_admitted : List OrderItem → Bool
unfolding unique_key all
order_items_admitted rows =
    unique_key (λ (i : OrderItem). i.id) rows
    && all (λ (i : OrderItem). ltb_ℤ (pos 0) i.quantity) rows
