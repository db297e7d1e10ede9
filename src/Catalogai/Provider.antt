-- ===== src/Catalogai/Provider.antt =====
-- app/catalogai/provider.py and the payload of app/catalogai/schemas.py. The provider itself is a
-- value of `AiProvider`, a parameter of the service.
use vyapar_ai.Prelude.{String, Option, some, List, [], ◌∷◌}
use vyapar_ai.Common.Decimal.{Decimal}
use vyapar_ai.Common.Storage.{Bytes}

-- The subclasses of `AiProviderError`, and the class itself.
pub data AiErrorKind : Type 0 where
  provider_error timeout unavailable rate_limited config_error invalid_response : AiErrorKind

-- The class attribute `code`.
pub error_code : AiErrorKind → String
error_code provider_error = "ai_provider_error"
error_code timeout = "ai_provider_timeout"
error_code unavailable = "ai_provider_unavailable"
error_code rate_limited = "ai_provider_rate_limited"
error_code config_error = "ai_provider_config_error"
error_code invalid_response = "ai_invalid_response"

pub record AiProviderError : Type 0 where
  pub kind : AiErrorKind
  pub detail : String

-- The validated payload; it has no price.
pub record AiDraftPayload : Type 0 where
  pub name : Option String
  pub description : Option String
  pub category_suggestion : Option String
  pub sku_suggestion : Option String
  pub tags : List String
  pub confidence : Decimal

-- `describe` returns a payload or raises an `AiProviderError`.
pub data Described : Type 0 where
  described : AiDraftPayload → Described
  failed : AiProviderError → Described

pub record AiProvider : Type 0 where
  pub name : String
  pub model : String
  -- image, content type
  pub describe : Bytes → String → Described

-- `MockAiProvider.describe`
abbrev pub mock_describe : String → Decimal → Bytes → String → Described
mock_describe category confidence [] content_type =
    failed (record { kind = invalid_response; detail = "empty image payload" })
mock_describe category confidence (byte ∷ image) content_type = described (record {
  name = some "Sample Product";
  description = some "A clear, concise product description drafted from the photo.";
  category_suggestion = some category;
  sku_suggestion = some "AI-SKU-0001";
  tags = "sample" ∷ "ai-generated" ∷ [];
  confidence = confidence;
})

-- `MockAiProvider`
abbrev pub mock : String → Decimal → String → AiProvider
mock model confidence category = record {
  name = "mock";
  model = model;
  describe = mock_describe category confidence;
}
