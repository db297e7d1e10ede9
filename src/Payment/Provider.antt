-- ===== src/Payment/Provider.antt =====
-- app/payment/provider.py: the gateway seam. The gateway itself is a value of `PaymentProvider`, a
-- parameter of the service.
use vyapar_ai.Prelude.{String, Option}
use vyapar_ai.Common.Decimal.{Decimal}

pub data ProviderPaymentStatus : Type 0 where
  success failed pending : ProviderPaymentStatus

pub record ProviderInitiation : Type 0 where
  pub provider_order_id : String
  pub payment_url : Option String

pub record ProviderVerification : Type 0 where
  pub provider_payment_id : String
  pub provider_order_id : String
  pub status : ProviderPaymentStatus
  pub amount : Decimal
  pub currency : String

-- The subclasses of `PaymentProviderError`.
pub data ProviderError : Type 0 where
  timeout unavailable rate_limited config_error invalid_response : ProviderError

-- The class attribute `code`.
pub provider_error_code : ProviderError → String
provider_error_code timeout = "payment_provider_timeout"
provider_error_code unavailable = "payment_provider_unavailable"
provider_error_code rate_limited = "payment_provider_rate_limited"
provider_error_code config_error = "payment_provider_config_error"
provider_error_code invalid_response = "payment_provider_invalid_response"

-- A call of the gateway returns typed facts or raises a `PaymentProviderError`.
pub data Answer (A : Type 0) : Type 0 where
  returned : A → Answer A
  raised : ProviderError → Answer A

pub record PaymentProvider : Type 0 where
  pub name : String
  -- amount, currency, reference
  pub create_payment : Decimal → String → String → Answer ProviderInitiation
  -- provider payment id, provider order id, amount, currency
  pub verify_payment : String → String → Decimal → String → Answer ProviderVerification
