-- ===== src/Payment.antt =====
-- app/payment/service.py: `PaymentService`.
pub mod Provider
pub mod Mock
pub mod Repository
pub mod Settlement
pub mod Settles
pub mod Verdict
pub mod Verify
pub mod Outcome
pub mod Closed
pub mod Paid
use Prim.Native.String.{◌++◌ as str_append, slice}
use vyapar_ai.Prelude.{ℕ, String, Bool, not, Option, none, some, List, str_eq, if◌then◌else◌}
use vyapar_ai.Common.Error.{
  Error, not_found_error, conflict_error, payment_state_error, payment_mismatch_error,
  payment_provider_unavailable_error, is_integrity, is_conflict,
}
use vyapar_ai.Common.Event.{payment_succeeded, payment_failed}
use vyapar_ai.Common.Text.{decimal}
use vyapar_ai.Common.Decimal
use vyapar_ai.Common.Decimal.{Decimal}
use vyapar_ai.Models.Order.{is_confirmed, pay}
use vyapar_ai.Models.Payment.{
  Payment, PaymentMethod, online, cod, PaymentStatus, is_online, is_success, verifiable_from,
  status_value,
}
use vyapar_ai.Order.{get_order, transition}
use vyapar_ai.Database.Session.{
  Env, Exec, pure, raise, or_raise, ◌>>=◌, ◌>>◌, raise_if, catch, modify, rollback, or_rollback,
  publish, flush, commit, now,
}
use Provider.{PaymentProvider, ProviderVerification, ProviderPaymentStatus, returned, raised}
use Repository.{
  get, lock_for_update, get_by_idempotency_key, successful_exists_for_order, list, add, set_payment,
  refresh,
}

abbrev pub no_payment : Error
no_payment = not_found_error "payment not found"

abbrev pub not_awaiting : Error
not_awaiting = payment_state_error "order is not awaiting payment"

abbrev pub already_paid : Error
already_paid = payment_state_error "order already has a successful payment"

abbrev pub gateway_down : Error
gateway_down = payment_provider_unavailable_error "payment gateway unavailable"

-- `raise PaymentStateError(f"cannot verify a {payment.status.value} payment")`
abbrev pub cannot : String → PaymentStatus → Error
cannot verb status = payment_state_error (
    str_append "cannot "
      (str_append verb (str_append " a " (str_append (status_value status) " payment"))))

-- `if c: session.rollback(); raise e`
abbrev pub reject_if : Bool → Error → Exec (Unit {0})
reject_if c e = if c then rollback >> raise e else pure tt

-- `payment.provider_order_id or ""`
abbrev pub or_empty : Option String → String
or_empty none = ""
or_empty (some s) = s

unfoldable pub get_payment : ℕ → ℕ → Exec Payment
unfolding get
get_payment business_id payment_id = do
  found ← get business_id payment_id
  or_raise found no_payment

unfoldable pub list_payments : ℕ → Exec (List Payment)
unfolding list
list_payments business_id = list business_id

-- The payment with an idempotency key, where one is given.
unfoldable pub existing_for : ℕ → Option String → Exec (Option Payment)
unfolding get_by_idempotency_key
existing_for business_id none = pure none
existing_for business_id (some key) = get_by_idempotency_key business_id key

-- The provider's name, its order id and the payment URL of a new attempt.
pub record Gateway : Type 0 where
  pub provider : String
  pub provider_order_id : Option String
  pub payment_url : Option String

-- `if method is PaymentMethod.ONLINE: ...` of `initiate`
unfoldable pub open_gateway : PaymentProvider → String → ℕ → PaymentMethod → Decimal → Exec Gateway
unfolding decimal
open_gateway provider currency order_id cod amount =
    pure (record { provider = "cod"; provider_order_id = none; payment_url = none })
open_gateway provider currency order_id online amount =
    elim (provider.create_payment amount currency (str_append "order-" (decimal order_id))) [
      | raised e ↦ raise gateway_down
      | returned init ↦ pure (record {
        provider = provider.name;
        provider_order_id = some init.provider_order_id;
        payment_url = init.payment_url;
      })
    ]

-- What the insert of `initiate` ends with: a new row, or the row that won a race for the key.
pub data Made : Type 0 where
  new earlier : Payment → Made

abbrev pub new_payment :
    ℕ → ℕ → PaymentMethod → Decimal → String → Gateway → Option String → Payment
new_payment business_id order_id method amount currency gateway key = record {
  id = 0;
  business_id = business_id;
  order_id = order_id;
  method = method;
  amount = amount;
  currency = currency;
  status = PaymentStatus.created;
  provider = gateway.provider;
  provider_order_id = gateway.provider_order_id;
  provider_payment_id = none;
  idempotency_key = key;
  failure_code = none;
  failure_reason = none;
  verified_at = none;
}

-- `except IntegrityError` and `except Exception` of `initiate`
abbrev race_lost : ℕ → Option String → Error → Exec Made
race_lost business_id key e =
    rollback
    >> (if is_integrity e
        then (do
          existing ← existing_for business_id key
          winner ← or_raise existing (conflict_error "duplicate payment initiation")
          pure (earlier winner))
        else raise e)

module _ ⦃env : Env⦄ where
  -- The result of `initiate` for the row that it made.
  unfoldable pub hand_out : Made → Option String → Exec (Payment × Option String)
  hand_out (earlier payment) url = pure (payment, none)
  hand_out (new payment) url = do refreshed ← refresh payment; pure (refreshed, url)

  unfoldable pub make_payment : ℕ → Payment → Exec Made
  unfolding add commit existing_for
  make_payment business_id row =
      catch (do payment ← add row; commit; pure (new payment))
        (race_lost business_id row.idempotency_key)

  unfoldable pub initiate :
      PaymentProvider
      → String
      → ℕ
      → ℕ
      → PaymentMethod
      → Option String
      → Exec (Payment × Option String)
  unfolding get_order successful_exists_for_order existing_for open_gateway make_payment hand_out
  initiate provider currency business_id order_id method key = do
    order ← get_order business_id order_id
    raise_if (not (is_confirmed order.status)) not_awaiting
    settled ← successful_exists_for_order business_id order_id
    raise_if settled already_paid
    existing ← existing_for business_id key
    elim existing [
      | some payment ↦ pure (payment, none)
      | none ↦ do
        gateway ← open_gateway provider currency order_id method order.total_amt
        made ←
            make_payment business_id
              (new_payment business_id order_id method order.total_amt currency gateway key)
        hand_out made gateway.payment_url
    ]
