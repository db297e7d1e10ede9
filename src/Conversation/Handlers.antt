-- ===== src/Conversation/Handlers.antt =====
-- app/conversation/handlers.py: the handlers of the intents, and their registry.
use vyapar_ai.Prelude.{
  ℕ, String, Bool, true, false, Option, none, some, List, [], ◌∷◌, if◌then◌else◌, str_eq,
}
use vyapar_ai.Prelude.Int.{ℤ, pos}
use vyapar_ai.Common.Error.{Error, not_found_error, insufficient_stock_error}
use vyapar_ai.Common.Decimal.{negate_ℕ}
use vyapar_ai.Models.Catalog.{Product}
use vyapar_ai.Models.Inventory.{Inventory, MovementType, restock, sale}
use vyapar_ai.Database.Session.{Env, Exec, pure, raise, catch, ◌>>=◌}
use vyapar_ai.Inventory.{get_inventory_by_product, adjust_stock_by_product}
use vyapar_ai.Conversation.{
  IntentType, StockDirection, IntentEntities, ResolvedIntent, search_product, get_stock,
  adjust_stock, unsupported, clarification_required,
}
use vyapar_ai.Conversation.Responses
use vyapar_ai.Conversation.Resolver.{resolve}

pub data Outcome : Type 0 where
  executed clarification unsupported_outcome not_found rejected error : Outcome

-- `.value` of a member
abbrev pub outcome_value : Outcome → String
outcome_value executed = "EXECUTED"
outcome_value clarification = "CLARIFICATION"
outcome_value unsupported_outcome = "UNSUPPORTED"
outcome_value not_found = "NOT_FOUND"
outcome_value rejected = "REJECTED"
outcome_value error = "ERROR"

pub record HandlerResult : Type 0 where
  pub reply : String
  pub outcome : Outcome

abbrev pub result : String → Outcome → Exec HandlerResult
result reply outcome = pure (record { reply = reply; outcome = outcome })

-- `except NotFoundError`, `except InsufficientStockError`
abbrev pub is_not_found : Error → Bool
is_not_found (not_found_error _) = true
is_not_found _ = false

abbrev pub is_insufficient : Error → Bool
is_insufficient (insufficient_stock_error _) = true
is_insufficient _ = false

-- `try: m` where the exceptions of `p` are answered with none
unfoldable pub attempt : {A : Type 0} → Exec A → (Error → Bool) → Exec (Option A)
attempt m p = catch (m >>= λ a. pure (some a)) (λ e. if p e then pure none else raise e)

-- A query that is there and not empty.
abbrev pub given : Option String → Option String
given none = none
given (some query) = if str_eq query "" then none else some query

-- `direction is not StockDirection.DECREASE`
abbrev pub is_increasing : Option StockDirection → Bool
is_increasing (some StockDirection.decrease) = false
is_increasing _ = true

abbrev pub delta_of : Bool → ℕ → ℤ
delta_of true quantity = pos quantity
delta_of false quantity = negate_ℕ quantity

-- `entities.movement_type or (...)`
abbrev pub movement_of : Bool → Option MovementType → MovementType
movement_of increasing (some movement_type) = movement_type
movement_of true none = restock
movement_of false none = sale

-- The reply to the matches of a search.
unfoldable pub list_matches : String → List Product → Exec HandlerResult
unfolding Responses.not_found Responses.search_results
list_matches query [] = result (Responses.not_found query) not_found
list_matches query (product ∷ products) =
    result (Responses.search_results (product ∷ products)) executed

-- The end of `GetStockHandler.handle`, with what the inventory has.
unfoldable pub tell_stock : Product → Option Inventory → Exec HandlerResult
unfolding Responses.no_inventory Responses.stock_level
tell_stock product none = result (Responses.no_inventory product.name) not_found
tell_stock product (some inventory) =
    result (Responses.stock_level product.name inventory.quantity) executed

-- What both handlers do with the matches: `act` goes on with the only one.
unfoldable pub with_single :
    String → (Product → Exec HandlerResult) → List Product → Exec HandlerResult
unfolding Responses.not_found Responses.multiple_matches
with_single query act [] = result (Responses.not_found query) not_found
with_single query act (product ∷ []) = act product
with_single query act (product ∷ other ∷ products) =
    result (Responses.multiple_matches query (product ∷ other ∷ products)) clarification

-- `intent.clarification or responses.low_confidence()`
abbrev clarify : Option String → String
clarify none = Responses.low_confidence
clarify (some text) = if str_eq text "" then Responses.low_confidence else text

module _ ⦃env : Env⦄ where
  -- The end of `AdjustStockHandler.handle`, with what the adjustment has returned.
  unfoldable pub tell_adjusted : Product → ℕ → ℤ → Inventory → Option Inventory → Exec HandlerResult
  unfolding Responses.insufficient_stock Responses.adjusted
  tell_adjusted product quantity delta current none =
      result (Responses.insufficient_stock product.name quantity current.quantity) rejected
  tell_adjusted product quantity delta current (some updated) =
      result (Responses.adjusted product.name delta updated.quantity) executed

  -- The adjustment of the only match, with what the inventory has of it.
  unfoldable pub adjust_known :
      ℕ
      → Product
      → Bool
      → ℕ
      → Option MovementType
      → Option ℕ
      → Option Inventory
      → Exec HandlerResult
  unfolding attempt adjust_stock_by_product tell_adjusted Responses.no_inventory
  adjust_known business_id product increasing quantity movement_type actor_user_id none =
      result (Responses.no_inventory product.name) not_found
  adjust_known business_id product increasing quantity movement_type actor_user_id (some current) =
      do
        updated ←
            attempt
              (adjust_stock_by_product business_id product.id (delta_of increasing quantity)
                (movement_of increasing movement_type) actor_user_id)
              is_insufficient
        tell_adjusted product quantity (delta_of increasing quantity) current updated

module _ (contains : String → String → Bool) (lower : String → String) where
  -- `SearchProductHandler.handle`
  unfoldable pub search_for : ℕ → Option String → Exec HandlerResult
  unfolding resolve list_matches
  search_for business_id none = result Responses.missing_search_product clarification
  search_for business_id (some query) = do
    matches ← resolve contains lower business_id query
    list_matches query matches

  -- `GetStockHandler.handle`
  unfoldable pub stock_of : ℕ → Option String → Exec HandlerResult
  unfolding resolve with_single tell_stock attempt get_inventory_by_product
  stock_of business_id none = result Responses.missing_search_product clarification
  stock_of business_id (some query) = do
    matches ← resolve contains lower business_id query
    with_single query
        (λ product.
          attempt (get_inventory_by_product business_id product.id) is_not_found
          >>= tell_stock product)
        matches

  module _ ⦃env : Env⦄ where
    unfoldable pub adjust_quantity :
        ℕ → String → Bool → Option ℕ → Option MovementType → Option ℕ → Exec HandlerResult
    unfolding resolve with_single attempt get_inventory_by_product adjust_known
        Responses.missing_quantity
    adjust_quantity business_id query increasing none movement_type actor_user_id =
        result (Responses.missing_quantity query increasing) clarification
    adjust_quantity business_id query increasing (some quantity) movement_type actor_user_id = do
      matches ← resolve contains lower business_id query
      with_single query
          (λ product.
            attempt (get_inventory_by_product business_id product.id) is_not_found
            >>= adjust_known business_id product increasing quantity movement_type actor_user_id)
          matches

    -- `AdjustStockHandler.handle`
    unfoldable pub adjust : ℕ → IntentEntities → Option String → Option ℕ → Exec HandlerResult
    unfolding adjust_quantity
    adjust business_id entities none actor_user_id = result Responses.missing_product clarification
    adjust business_id entities (some query) actor_user_id =
        adjust_quantity business_id query (is_increasing entities.direction) entities.quantity
          entities.movement_type actor_user_id

    -- `self._registry[resolved.intent].handle(...)`
    unfoldable pub dispatch : ℕ → ResolvedIntent → IntentType → Option ℕ → Exec HandlerResult
    unfolding search_for stock_of adjust
    dispatch business_id intent search_product actor_user_id =
        search_for business_id (given intent.entities.product_query)
    dispatch business_id intent get_stock actor_user_id =
        stock_of business_id (given intent.entities.product_query)
    dispatch business_id intent adjust_stock actor_user_id =
        adjust business_id intent.entities (given intent.entities.product_query) actor_user_id
    dispatch business_id intent unsupported actor_user_id =
        result Responses.unsupported unsupported_outcome
    dispatch business_id intent clarification_required actor_user_id =
        result (clarify intent.clarification) clarification
