-- ===== src/Conversation.antt =====
-- app/conversation/schemas.py, app/conversation/provider.py and app/common/messaging.py: the intents,
-- the provider that resolves a text to one, and the messages. The services are in the child modules.
pub mod Responses
pub mod Resolver
pub mod Handlers
pub mod Service
pub mod Mock
pub mod Effects
pub mod Limits
pub mod Answers
pub mod Keywords
use vyapar_ai.Prelude.{
  ℕ, String, Bool, true, false, ◌==◌, Option, none, some, ltb, ◌||◌, if◌then◌else◌,
}
use vyapar_ai.Prelude.Int.{ℤ, pos, negsuc}
use vyapar_ai.Common.Decimal.{Decimal}
use vyapar_ai.Models.Inventory.{MovementType}

pub data IntentType : Type 0 where
  search_product get_stock adjust_stock unsupported clarification_required : IntentType

pub data StockDirection : Type 0 where
  increase decrease : StockDirection

-- The validators have run: a quantity is between 1 and 1,000,000.
pub record IntentEntities : Type 0 where
  pub product_query : Option String
  pub quantity : Option ℕ
  pub direction : Option StockDirection
  pub movement_type : Option MovementType

pub record ResolvedIntent : Type 0 where
  pub intent : IntentType
  pub confidence : Decimal
  pub entities : IntentEntities
  pub clarification : Option String

-- `_sane_quantity`
unfoldable pub sane_quantity : Option ℤ → Option ℕ
sane_quantity none = none
sane_quantity (some (pos value)) = if value == 0 || ltb 1000000 value then none else some value
sane_quantity (some (negsuc n)) = none

-- `resolve` of a provider returns an intent, raises a `ConversationAiError`, or any other exception.
pub data Resolved : Type 0 where
  resolved : ResolvedIntent → Resolved
  failed : Resolved
  crashed : Resolved

-- `.value` of a member
abbrev pub intent_value : IntentType → String
intent_value search_product = "SEARCH_PRODUCT"
intent_value get_stock = "GET_STOCK"
intent_value adjust_stock = "ADJUST_STOCK"
intent_value unsupported = "UNSUPPORTED"
intent_value clarification_required = "CLARIFICATION_REQUIRED"

pub record IncomingMessage : Type 0 where
  pub business_id : ℕ
  pub sender_phone : String
  pub text : Option String

pub record OutgoingMessage : Type 0 where
  pub business_id : ℕ
  pub recipient_phone : String
  pub text : String
