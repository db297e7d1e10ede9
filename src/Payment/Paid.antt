-- ===== src/Payment/Paid.antt =====
-- What app/payment/service.py does with an order that has been paid.
use vyapar_ai.Prelude.{ℕ, String, ◌≡◌, Bool, true, ◌&&◌, any, ◌==◌, arith, Option}
use vyapar_ai.Models.Payment.{Payment, PaymentMethod, is_success}
use vyapar_ai.Database.Refuses.{
  Refuses, Reads, query-Reads, bind-Reads, or_raise-Reads, after_read, refused_by, refused_by_found,
}
use vyapar_ai.Database.Session.{Env, Session, query}
use vyapar_ai.Order.{get_order}
use vyapar_ai.Order.Repository.{get}
use vyapar_ai.Payment.{initiate}
use vyapar_ai.Payment.Provider.{PaymentProvider}
use vyapar_ai.Payment.Repository.{successful_exists_for_order}

-- A payment of the order that has succeeded.
abbrev pub has_paid : ℕ → ℕ → Payment → Bool
has_paid business_id order_id p =
    is_success p.status && p.business_id == business_id && p.order_id == order_id

get_order-Reads : (business_id order_id : ℕ) → Reads (get_order business_id order_id)
unfolding get_order get
get_order-Reads business_id order_id =
    bind-Reads _ _ (query-Reads _) λ found. or_raise-Reads found _

module _ ⦃env : Env⦄ where
  -- An order that has a successful payment is offered no other: whatever its status, the method, the
  -- idempotency key and the gateway, an initiation raises, sends no write and leaves the session exactly
  -- as it was.
  pub initiate-Refuses :
      (s : Session) (provider : PaymentProvider) (currency : String) (business_id order_id : ℕ)
      (method : PaymentMethod) (key : Option String)
      → any (has_paid business_id order_id) s.work.payments ≡ true
      → Refuses (initiate provider currency business_id order_id method key) s
  unfolding initiate successful_exists_for_order query
  initiate-Refuses s provider currency business_id order_id method key paid =
      after_read _ _ s (get_order-Reads business_id order_id) λ order _. refused_by _ _ _ s λ _.
        after_read _ _ s (query-Reads _) λ settled e.
          refused_by_found _ _ s.work.payments settled _ _ s (λ r k. ground (arith, k)) paid e
