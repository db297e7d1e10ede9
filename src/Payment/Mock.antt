-- ===== src/Payment/Mock.antt =====
-- app/payment/provider.py: `MockPaymentProvider`, which decides by the prefix of the payment id.
use Prim.Native.String.{◌++◌ as str_append}
use text.Mathlib.Text.{starts_with}
use vyapar_ai.Prelude.{String, some, if◌then◌else◌}
use vyapar_ai.Prelude.Int.{pos}
use vyapar_ai.Common.Decimal
use vyapar_ai.Common.Decimal.{Decimal, cents}
use vyapar_ai.Payment.Provider.{
  ProviderPaymentStatus, success, failed, pending, ProviderInitiation, ProviderVerification,
  timeout, unavailable, config_error, invalid_response, Answer, returned, raised, PaymentProvider,
}

unfoldable pub create_payment : Decimal → String → String → Answer ProviderInitiation
create_payment amount currency reference =
    let provider_order_id = str_append "order_" reference in
    returned (record {
      provider_order_id = provider_order_id;
      payment_url = some (str_append "https://mock.pay/" provider_order_id);
    })

abbrev facts :
    String → String → ProviderPaymentStatus → Decimal → String → Answer ProviderVerification
facts payment_id order_id status amount currency = returned (record {
  provider_payment_id = payment_id;
  provider_order_id = order_id;
  status = status;
  amount = amount;
  currency = currency;
})

unfoldable pub verify_payment : String → String → Decimal → String → Answer ProviderVerification
unfolding Decimal.add
verify_payment pid order_id amount currency =
    if starts_with pid "pay_unavailable"
    then raised unavailable
    else if starts_with pid "pay_timeout"
    then raised timeout
    else if starts_with pid "pay_auth"
    then raised config_error
    else if starts_with pid "pay_malformed"
    then raised invalid_response
    else if starts_with pid "pay_pending"
    then facts pid order_id pending amount currency
    else if starts_with pid "pay_fail"
    then facts pid order_id failed amount currency
    else if starts_with pid "pay_amount"
    then facts pid order_id success (Decimal.add amount (cents (pos 100))) currency
    else if starts_with pid "pay_currency"
    then facts pid order_id success amount "USD"
    else if starts_with pid "pay_order"
    then facts pid "order_someone_else" success amount currency
    else facts pid order_id success amount currency

abbrev pub mock : PaymentProvider
mock = record { name = "mock"; create_payment = create_payment; verify_payment = verify_payment }
