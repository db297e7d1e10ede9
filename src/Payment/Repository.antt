-- ===== src/Payment/Repository.antt =====
-- app/payment/repository.py: the queries and inserts on `payment`.
use mathlib.Core.List.{reverse}
use vyapar_ai.Prelude.{ℕ, String, Bool, ◌&&◌, Option, some, List, [], ◌∷◌, ◌++◌, ◌==◌, is_some}
use vyapar_ai.Common.Result.{ok}
use vyapar_ai.Models.Payment.{Payment, is_success, same_key}
use vyapar_ai.Models.Rows.{select, one_or_none, first, order_by, assign}
use vyapar_ai.Database.Tables.{Tables}
use vyapar_ai.Database.Session.{Env, Exec, pure, query, modify, fresh, flush, reload, ◌>>=◌, ◌>>◌}

-- `Payment.id == payment_id, Payment.business_id == business_id`
abbrev pub at_id : ℕ → ℕ → Payment → Bool
at_id business_id payment_id p = p.id == payment_id && p.business_id == business_id

-- A successful payment of an order.
abbrev pub pays : ℕ → ℕ → Payment → Bool
pays business_id order_id p =
    p.business_id == business_id && p.order_id == order_id && is_success p.status

unfoldable pub get : ℕ → ℕ → Exec (Option Payment)
get business_id payment_id =
    query (λ t. one_or_none (select (at_id business_id payment_id) t.payments))

-- The row lock keeps other transactions out, and does not show within one session.
unfoldable pub lock_for_update : ℕ → ℕ → Exec (Option Payment)
lock_for_update business_id payment_id =
    query (λ t. one_or_none (select (at_id business_id payment_id) t.payments))

unfoldable pub get_by_idempotency_key : ℕ → String → Exec (Option Payment)
get_by_idempotency_key business_id key = query (λ t. ok (
    first (
      select
        (λ (p : Payment). p.business_id == business_id && same_key p.idempotency_key (some key))
        t.payments)))

unfoldable pub get_successful_for_order : ℕ → ℕ → Exec (Option Payment)
get_successful_for_order business_id order_id =
    query (λ t. ok (first (select (pays business_id order_id) t.payments)))

unfoldable pub successful_exists_for_order : ℕ → ℕ → Exec Bool
successful_exists_for_order business_id order_id =
    query (λ t. ok (is_some (first (select (pays business_id order_id) t.payments))))

-- `order_by(Payment.id.desc())`
unfoldable pub list : ℕ → Exec (List Payment)
list business_id = query (λ t. ok (
    reverse (
      order_by (λ (p : Payment). p.id)
        (select (λ (p : Payment). p.business_id == business_id) t.payments))))

-- The attributes of a loaded row, written by the next flush.
abbrev pub set_payment : Payment → Tables → Tables
set_payment p t = record t { payments = assign (λ (q : Payment). q.id) p t.payments }

abbrev pub insert_payment : Payment → Tables → Tables
insert_payment p t = record t { payments = t.payments ++ p ∷ [] }

-- `session.refresh(payment)`
abbrev pub refresh : Payment → Exec Payment
refresh = reload (λ (p : Payment). p.id) (λ t. t.payments)

module _ ⦃env : Env⦄ where
  unfoldable pub add : Payment → Exec Payment
  unfolding flush
  add payment = do
    key ← fresh
    let row = record payment { id = key }
    modify (insert_payment row)
    flush
    pure row
