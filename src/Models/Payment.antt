-- ===== src/Models/Payment.antt =====
-- app/payment/models.py: payment attempts and their states.
use vyapar_ai.Prelude.{ℕ, String, Bool, true, false, ◌&&◌, Option, some, List, all, ◌==◌, str_eq}
use vyapar_ai.Prelude.Int.{pos}
use vyapar_ai.Common.Decimal
use vyapar_ai.Common.Decimal.{Decimal, from_int}
use vyapar_ai.Models.Rows.{unique, unique_key}

pub data PaymentMethod : Type 0 where
  online cod : PaymentMethod

pub data PaymentStatus : Type 0 where
  created pending success failed cancelled : PaymentStatus

abbrev pub is_online : PaymentMethod → Bool
is_online online = true
is_online cod = false

abbrev pub is_success : PaymentStatus → Bool
is_success success = true
is_success _ = false

-- `status in VERIFIABLE_FROM`
unfoldable pub verifiable_from : PaymentStatus → Bool
verifiable_from created = true
verifiable_from pending = true
verifiable_from _ = false

-- `status in TERMINAL`
unfoldable pub terminal : PaymentStatus → Bool
terminal success = true
terminal failed = true
terminal cancelled = true
terminal _ = false

-- `.value` of a member
abbrev pub status_value : PaymentStatus → String
status_value created = "CREATED"
status_value pending = "PENDING"
status_value success = "SUCCESS"
status_value failed = "FAILED"
status_value cancelled = "CANCELLED"

pub record Payment : Type 0 where
  pub id : ℕ
  pub business_id : ℕ
  pub order_id : ℕ
  pub method : PaymentMethod
  pub amount : Decimal
  pub currency : String
  pub status : PaymentStatus
  pub provider : String
  pub provider_order_id : Option String
  pub provider_payment_id : Option String
  pub idempotency_key : Option String
  pub failure_code : Option String
  pub failure_reason : Option String
  pub verified_at : Option ℕ

-- Two keys that are both there and equal: what a partial unique index on a key refuses.
abbrev pub same_key : Option String → Option String → Bool
same_key (some a) (some b) = str_eq a b
same_key _ _ = false

-- `uq_payment_order_success`
abbrev pub both_successful : Payment → Payment → Bool
both_successful p q = p.order_id == q.order_id && is_success p.status && is_success q.status

-- The primary key and the constraints of `Payment.__table_args__`.
unfoldable pub payments_admitted : List Payment → Bool
unfolding unique unique_key all Decimal.lt
payments_admitted rows =
    unique_key (λ (p : Payment). p.id) rows
    && all (λ (p : Payment). Decimal.lt (from_int (pos 0)) p.amount) rows
    && unique both_successful rows
    && unique
        (λ (p q : Payment).
          p.business_id == q.business_id && same_key p.provider_payment_id q.provider_payment_id)
        rows
    && unique
        (λ (p q : Payment).
          p.business_id == q.business_id && same_key p.idempotency_key q.idempotency_key)
        rows
