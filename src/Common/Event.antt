-- ===== src/Common/Event.antt =====
-- app/common/events.py: the domain events that the services publish.
use vyapar_ai.Prelude.{ℕ, String}
use vyapar_ai.Prelude.Int.{ℤ}

pub record LowStock : Type 0 where
  pub business_id : ℕ
  pub product_id : ℕ
  pub quantity : ℤ
  pub threshold : ℤ

-- The fields of the order events: business, order, customer; of the payment events: business,
-- order, payment, and the failure code.
pub data DomainEvent : Type 0 where
  low_stock : LowStock → DomainEvent
  order_created order_confirmed order_cancelled : ℕ → ℕ → ℕ → DomainEvent
  payment_succeeded : ℕ → ℕ → ℕ → DomainEvent
  payment_failed : ℕ → ℕ → ℕ → String → DomainEvent
