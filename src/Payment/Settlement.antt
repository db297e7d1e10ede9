-- ===== src/Payment/Settlement.antt =====
-- app/payment/service.py: `verify`, `confirm_cod`, `_succeed` and `_fail` of `PaymentService`.
use Prim.Native.String.{slice}
use vyapar_ai.Prelude.{ℕ, String, not, Option, none, some, str_eq, if◌then◌else◌}
use vyapar_ai.Common.Error.{
  Error, payment_state_error, payment_mismatch_error, is_integrity, is_conflict,
}
use vyapar_ai.Common.Event.{payment_succeeded, payment_failed}
use vyapar_ai.Common.Decimal
use vyapar_ai.Models.Order.{is_confirmed, OrderEvent}
use vyapar_ai.Models.Payment.{Payment, PaymentStatus, is_online, is_success, verifiable_from}
use vyapar_ai.Order.{get_order, transition}
use vyapar_ai.Database.Session.{
  Env, Exec, pure, raise, or_raise, ◌>>=◌, ◌>>◌, catch, modify, rollback, or_rollback, publish,
  flush, commit, now,
}
use vyapar_ai.Payment.{
  no_payment, not_awaiting, already_paid, gateway_down, cannot, reject_if, or_empty,
}
use vyapar_ai.Payment.Provider.{
  PaymentProvider, ProviderVerification, ProviderPaymentStatus, returned, raised,
}
use vyapar_ai.Payment.Repository.{lock_for_update, set_payment, refresh}

abbrev pub duplicate : Error
duplicate =
    payment_state_error "order already has a successful payment or duplicate provider reference"

-- `except IntegrityError` and `except ConflictError` of `_succeed`; nothing else is caught.
abbrev pub not_paid : {A : Type 0} → Error → Exec A
not_paid e =
    if is_integrity e
    then rollback >> raise duplicate
    else if is_conflict e
    then rollback >> raise already_paid
    else raise e

-- The row of a payment that has succeeded, and of one that has failed.
abbrev pub succeeded : Payment → Option String → ℕ → Payment
succeeded payment provider_payment_id time = record payment {
  provider_payment_id = provider_payment_id;
  status = PaymentStatus.success;
  verified_at = some time;
}

abbrev pub failed_with : Payment → String → String → Payment
failed_with payment code reason = record payment {
  status = PaymentStatus.failed;
  failure_code = some code;
  failure_reason = some (slice reason 0 500);
}

module _ ⦃env : Env⦄ where
  -- `_succeed`
  unfoldable pub succeed : Payment → Option String → Option ℕ → Exec Payment
  unfolding flush transition
  succeed payment provider_payment_id actor_user_id = do
    time ← now
    let changed = succeeded payment provider_payment_id time
    catch
        (do
          modify (set_payment changed)
          flush
          transition changed.business_id changed.order_id OrderEvent.pay actor_user_id)
        not_paid
    refreshed ← refresh changed
    publish (payment_succeeded refreshed.business_id refreshed.order_id refreshed.id)
    pure refreshed

  -- `_fail`: the failure is committed, and then raised.
  unfoldable pub fail : Payment → String → String → Exec Payment
  unfolding commit
  fail payment code reason = do
    let changed = failed_with payment code reason
    modify (set_payment changed)
    or_rollback commit
    refreshed ← refresh changed
    publish (payment_failed refreshed.business_id refreshed.order_id refreshed.id code)
    raise (payment_mismatch_error reason)

  -- `payment.status = PaymentStatus.PENDING` and what follows it
  unfoldable pub hold : Payment → Exec Payment
  unfolding commit
  hold payment = do
    let changed = record payment { status = PaymentStatus.pending }
    modify (set_payment changed)
    or_rollback commit
    refresh changed

  -- The comparison of a successful answer with the payment.
  unfoldable pub match_facts : Payment → ProviderVerification → Option ℕ → Exec Payment
  unfolding fail succeed Decimal.eq
  match_facts payment result actor_user_id =
      if not (str_eq result.provider_order_id (or_empty payment.provider_order_id))
      then fail payment "reference_mismatch" "provider order reference mismatch"
      else if not (Decimal.eq result.amount payment.amount)
      then fail payment "amount_mismatch" "provider amount does not match the order total"
      else if not (str_eq result.currency payment.currency)
      then fail payment "currency_mismatch" "provider currency mismatch"
      else succeed payment (some result.provider_payment_id) actor_user_id

  -- What `verify` makes of the facts that the gateway returned.
  unfoldable pub judge : Payment → ProviderVerification → Option ℕ → Exec Payment
  unfolding hold fail match_facts
  judge payment result actor_user_id = elim result.status [
    | ProviderPaymentStatus.pending ↦ hold payment
    | ProviderPaymentStatus.failed ↦
        fail payment "provider_failed" "gateway reported a failed payment"
    | ProviderPaymentStatus.success ↦ match_facts payment result actor_user_id
  ]

  -- `verify` once the payment may be verified and its order is awaiting payment.
  unfoldable pub ask_gateway : PaymentProvider → Payment → String → Option ℕ → Exec Payment
  unfolding judge
  ask_gateway provider payment provider_payment_id actor_user_id =
      elim (provider.verify_payment provider_payment_id (or_empty payment.provider_order_id)
        payment.amount payment.currency) [
          | raised e ↦ rollback >> raise gateway_down
          | returned result ↦ judge payment result actor_user_id
        ]

  -- The guards that `verify` and `confirm_cod` share, below the test of the method: `rest` goes on
  -- with a payment whose order is awaiting it.
  unfoldable pub when_awaiting : ℕ → String → Payment → Exec Payment → Exec Payment
  unfolding get_order verifiable_from
  when_awaiting business_id verb payment rest =
      if is_success payment.status then rollback >> pure payment else (do
        reject_if (not (verifiable_from payment.status)) (cannot verb payment.status)
        order ← get_order business_id payment.order_id
        reject_if (not (is_confirmed order.status)) not_awaiting
        rest)

  unfoldable pub verify : PaymentProvider → ℕ → ℕ → String → Option ℕ → Exec Payment
  unfolding lock_for_update when_awaiting ask_gateway
  verify provider business_id payment_id provider_payment_id actor_user_id = do
    found ← lock_for_update business_id payment_id
    payment ← or_rollback (or_raise found no_payment)
    reject_if (not (is_online payment.method)) (payment_state_error "not an online payment")
    when_awaiting business_id "verify" payment
        (ask_gateway provider payment provider_payment_id actor_user_id)

  unfoldable pub confirm_cod : ℕ → ℕ → Option ℕ → Exec Payment
  unfolding lock_for_update when_awaiting succeed
  confirm_cod business_id payment_id actor_user_id = do
    found ← lock_for_update business_id payment_id
    payment ← or_rollback (or_raise found no_payment)
    reject_if (is_online payment.method) (payment_state_error "not a COD payment")
    when_awaiting business_id "confirm" payment (succeed payment none actor_user_id)
