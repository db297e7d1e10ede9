-- ===== src/Conversation/Mock.antt =====
-- app/conversation/provider.py: `MockConversationAiProvider`, a rule engine over keywords. `lower` is
-- Unicode's `str.lower`, and `digit_value` has the decimal digits of Unicode.
use Prim.Native.String.{◌++◌ as str_append}
use vyapar_ai.Prelude.{
  ℕ, String, Bool, not, any, ◌&&◌, ◌||◌, Option, none, some, List, [], ◌∷◌, ltb, str_eq,
  if◌then◌else◌,
}
use vyapar_ai.Prelude.Int.{ℤ, pos}
use vyapar_ai.Common.Decimal.{Decimal, cents}
use vyapar_ai.Common.Text.{strip}
use vyapar_ai.Common.Words.{occurs, split, tokens, all_digits, first_number, chars}
use vyapar_ai.Models.Inventory.{damage}
use vyapar_ai.Conversation.{
  IntentType, StockDirection, IntentEntities, ResolvedIntent, Resolved, resolved, crashed,
  sane_quantity, search_product, get_stock, adjust_stock, unsupported, clarification_required,
}

-- `_INJECTION_KW`
abbrev pub injection : List String
injection =
    "ignore previous" ∷ "ignore all" ∷ "disregard" ∷ "delete" ∷ "drop table" ∷ "truncate"
    ∷ "select *" ∷ " sql" ∷ "business_id" ∷ "another business" ∷ "other business" ∷ "system prompt"
    ∷ []

-- `_UNSUPPORTED_KW`
abbrev pub unsupported_words : List String
unsupported_words =
    "order" ∷ "customer" ∷ "payment" ∷ "invoice" ∷ "refund" ∷ "checkout" ∷ "cart" ∷ "delivery"
    ∷ "notification" ∷ "dashboard" ∷ "analytics" ∷ []

-- `_INCREASE_KW`
abbrev pub increasing : List String
increasing = "add" ∷ "restock" ∷ "increase" ∷ "refill" ∷ "top up" ∷ []

-- `_DECREASE_KW`
abbrev pub decreasing : List String
decreasing = "remove" ∷ "reduce" ∷ "decrease" ∷ "subtract" ∷ "sell" ∷ "damage" ∷ []

-- `_STOCK_KW`
abbrev pub of_stock : List String
of_stock = "how many" ∷ "stock" ∷ "left" ∷ "in stock" ∷ "quantity of" ∷ "how much" ∷ []

-- `_SEARCH_KW`
abbrev pub of_search : List String
of_search = "show" ∷ "find" ∷ "search" ∷ "do we have" ∷ "look for" ∷ "list" ∷ "have we" ∷ []

-- `_STOP`
abbrev pub stop_words : List String
stop_words =
    "add" ∷ "remove" ∷ "restock" ∷ "increase" ∷ "decrease" ∷ "reduce" ∷ "subtract" ∷ "sell"
    ∷ "refill" ∷ "damaged" ∷ "damage" ∷ "some" ∷ "the" ∷ "a" ∷ "an" ∷ "of" ∷ "by" ∷ "to" ∷ "for"
    ∷ "units" ∷ "unit" ∷ "how" ∷ "many" ∷ "much" ∷ "left" ∷ "in" ∷ "stock" ∷ "do" ∷ "we" ∷ "have"
    ∷ "show" ∷ "find" ∷ "search" ∷ "list" ∷ "me" ∷ "my" ∷ "please" ∷ "check" ∷ "quantity" ∷ "is"
    ∷ "are" ∷ "there" ∷ "got" ∷ "look" ∷ "and" ∷ "with" ∷ "currently" ∷ "current" ∷ "up" ∷ "top"
    ∷ []

-- `any(kw in low for kw in keywords)`
unfoldable pub mentions : List String → String → Bool
unfolding any occurs
mentions keywords low = any (λ keyword. occurs keyword low) keywords

-- `" ".join(words)`
unfoldable pub join_words : List String → String
join_words [] = ""
join_words (word ∷ []) = word
join_words (word ∷ next ∷ words) = str_append word (str_append " " (join_words (next ∷ words)))

-- `[t for t in tokens if t not in _STOP and not t.isdigit()]`
unfoldable pub product_words : List String → List String
unfolding any all_digits
product_words [] = []
product_words (t ∷ ts) =
    let rest = product_words ts in
    if not (any (str_eq t) stop_words) && not (all_digits t) then t ∷ rest else rest

-- `_extract_product`
unfoldable pub extract_product : (String → String) → String → Option String
unfolding product_words tokens join_words
extract_product lower text =
    let words = join_words (product_words (tokens (lower text))) in
    if str_eq words "" then none else some words

-- The validators of `IntentEntities`: a product of more than 200 characters raises.
unfoldable pub with_entities : (IntentEntities → ResolvedIntent) → IntentEntities → Resolved
unfolding chars
with_entities intent entities = elim entities.product_query [
  | none ↦ resolved (intent entities)
  | some query ↦ if ltb 200 (chars query) then crashed else resolved (intent entities)
]

abbrev as_int : Option ℕ → Option ℤ
as_int none = none
as_int (some n) = some (pos n)

abbrev no_entities : IntentEntities
no_entities = record {
  product_query = none;
  quantity = none;
  direction = none;
  movement_type = none;
}

abbrev pub plain : IntentType → Decimal → Option String → Resolved
plain intent confidence clarification = resolved (record {
  intent = intent;
  confidence = confidence;
  entities = no_entities;
  clarification = clarification;
})

abbrev about : IntentType → Decimal → IntentEntities → ResolvedIntent
about intent confidence entities = record {
  intent = intent;
  confidence = confidence;
  entities = entities;
  clarification = none;
}

abbrev ask_what : String
ask_what = "Would you like to search products, check stock, or adjust inventory?"

abbrev ask_again : String
ask_again = "I can search products, check stock, or adjust inventory. What would you like?"

module _ (lower : String → String) (digit_value : ℕ → Option ℕ) where
  -- The branch of `resolve` for an adjustment.
  unfoldable pub adjustment : String → Resolved
  unfolding mentions occurs first_number extract_product with_entities split any sane_quantity
  adjustment low =
      with_entities
        (about adjust_stock
          (if any (str_eq "some") (split low) then cents (pos 42) else cents (pos 90)))
        (record {
          product_query = extract_product lower low;
          quantity = sane_quantity (as_int (first_number digit_value none low));
          direction = some (
              if mentions increasing low then StockDirection.increase else StockDirection.decrease);
          movement_type = if occurs "damage" low then some damage else none;
        })

  -- The branches of `resolve` after the guards.
  unfoldable pub resolve_low : String → Resolved
  unfolding mentions adjustment with_entities extract_product
  resolve_low low =
      if mentions increasing low || mentions decreasing low
      then adjustment low
      else if mentions of_stock low
      then with_entities (about get_stock (cents (pos 90)))
          (record no_entities { product_query = extract_product lower low })
      else if mentions of_search low
      then with_entities (about search_product (cents (pos 90)))
          (record no_entities { product_query = extract_product lower low })
      else plain clarification_required (cents (pos 50)) (some ask_again)

  -- `resolve`
  unfoldable pub resolve : String → Resolved
  unfolding mentions occurs resolve_low strip any
  resolve text =
      let low = lower (strip text) in
      if mentions injection low || mentions unsupported_words low
      then plain unsupported (cents (pos 95)) none
      else if occurs "do something" low || any (str_eq low) ("help" ∷ "hi" ∷ "hello" ∷ [])
      then plain clarification_required (cents (pos 50)) (some ask_what)
      else resolve_low low
