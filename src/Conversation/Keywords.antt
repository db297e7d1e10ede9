-- ===== src/Conversation/Keywords.antt =====
-- What the rule engine of app/conversation/provider.py makes of a message with a blocked keyword.
use Prim.Native.String.{◌++◌ as str_append}
use vyapar_ai.Prelude.{String}
use vyapar_ai.Common.Decimal.{Decimal}
use vyapar_ai.Database.Session.{Session}
use vyapar_ai.Conversation.Responses
use vyapar_ai.Conversation.Mock

-- The requests that docs/history/phase6_architecture_decision.md says are not served, and those of
-- tests/unit/test_conversation.py.
pub data Refused : Type 0 where
  ignore_previous delete_inventory run_sql use_another_business set_business_id create_an_order
        new_customer generate_an_invoice take_a_payment :
      Refused

-- The words of the request.
abbrev pub words : Refused → String
words ignore_previous = "ignore previous"
words delete_inventory = "delete inventory"
words run_sql = "run sql"
words use_another_business = "use another business"
words set_business_id = "set business_id"
words create_an_order = "create an order"
words new_customer = "new customer"
words generate_an_invoice = "generate an invoice"
words take_a_payment = "take a payment"
