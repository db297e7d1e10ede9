-- ===== src/Conversation/Effects.antt =====
-- What a message to app/conversation/service.py reaches: without an intent to adjust, no table; with
-- one, the stock and its movements.
use vyapar_ai.Prelude.{ℕ, String, Bool, refl, Option, none, some, List, [], ◌∷◌}
use vyapar_ai.Prelude.Int.{ℤ}
use vyapar_ai.Common.Error.{Error}
use vyapar_ai.Common.Event.{LowStock}
use vyapar_ai.Common.Decimal.{Decimal}
use vyapar_ai.Models.Catalog.{Product}
use vyapar_ai.Models.Inventory.{Inventory, MovementType}
use vyapar_ai.Database.Tables.{Tables}
use vyapar_ai.Database.Session.{Env, Exec}
use vyapar_ai.Database.Leaves.{
  Leaves, query-Leaves, pure-Leaves, bind-Leaves, catch-Leaves, if-Leaves, raise-Leaves,
  publish-Leaves, leaving,
}
use vyapar_ai.Catalog.{list_products}
use vyapar_ai.Catalog.Repository.{list_product_rows}
use vyapar_ai.Inventory.{
  publish_pending, get_inventory_by_product, adjust_stock, adjust_stock_by_product, write_stock,
}
use vyapar_ai.Inventory.Repository.{get_by_product, lock_for_update, add_movement}
use vyapar_ai.Conversation.{
  IntentType, IntentEntities, ResolvedIntent, Resolved, resolved, failed, crashed, IncomingMessage,
  OutgoingMessage, search_product, get_stock, unsupported, clarification_required,
}
use vyapar_ai.Conversation.Resolver.{candidates, first_matches, or_next, resolve}
use vyapar_ai.Conversation.Handlers.{
  HandlerResult, attempt, given, list_matches, search_for, tell_stock, with_single, stock_of,
  tell_adjusted, adjust_known, adjust_quantity, adjust, dispatch,
}
use vyapar_ai.Conversation.Service.{act, answer, handle}

-- The tables with the stock and its movements forgotten.
abbrev pub but_stock : Tables → Tables
but_stock t = record t { inventories = []; movements = [] }

module _ {view : Tables → Tables} where
  attempt-Leaves :
      {A : Type 0} (m : Exec A) (p : Error → Bool) → Leaves view m → Leaves view (attempt m p)
  unfolding attempt
  attempt-Leaves m p h =
      catch-Leaves _ _ (bind-Leaves m _ h λ a. pure-Leaves _)
        λ e. if-Leaves (p e) (pure-Leaves _) (raise-Leaves e)

  or_next-Leaves :
      (matches : List Product) (next : Exec (List Product))
      → Leaves view next
      → Leaves view (or_next matches next)
  or_next-Leaves [] next h = h
  or_next-Leaves (product ∷ products) next h = pure-Leaves _

  get_inventory_by_product-Leaves :
      (business_id product_id : ℕ) → Leaves view (get_inventory_by_product business_id product_id)
  unfolding get_inventory_by_product get_by_product
  get_inventory_by_product-Leaves business_id product_id = search leaving

  tell_stock-Leaves :
      (product : Product) (inventory : Option Inventory)
      → Leaves view (tell_stock product inventory)
  unfolding tell_stock
  tell_stock-Leaves product none = pure-Leaves _
  tell_stock-Leaves product (some inventory) = pure-Leaves _

  list_matches-Leaves :
      (query : String) (matches : List Product) → Leaves view (list_matches query matches)
  unfolding list_matches
  list_matches-Leaves query [] = pure-Leaves _
  list_matches-Leaves query (product ∷ products) = pure-Leaves _

  with_single-Leaves :
      (query : String) (go : Product → Exec HandlerResult) (matches : List Product)
      → ((product : Product) → Leaves view (go product))
      → Leaves view (with_single query go matches)
  unfolding with_single
  with_single-Leaves query go [] h = pure-Leaves _
  with_single-Leaves query go (product ∷ []) h = h product
  with_single-Leaves query go (product ∷ other ∷ products) h = pure-Leaves _

  module _ (contains : String → String → Bool) (lower : String → String) where
    first_matches-Leaves :
        (business_id : ℕ) (queries : List String)
        → Leaves view (first_matches contains business_id queries)
    unfolding first_matches list_products list_product_rows
    first_matches-Leaves business_id [] = pure-Leaves _
    first_matches-Leaves business_id (query ∷ queries) =
        bind-Leaves _ _ (query-Leaves _)
          λ matches. or_next-Leaves matches _ (first_matches-Leaves business_id queries)

    resolve-Leaves :
        (business_id : ℕ) (query : String) → Leaves view (resolve contains lower business_id query)
    unfolding resolve
    resolve-Leaves business_id query = first_matches-Leaves business_id (candidates lower query)

    pub search_for-Leaves :
        (business_id : ℕ) (query : Option String)
        → Leaves view (search_for contains lower business_id query)
    unfolding search_for
    search_for-Leaves business_id none = pure-Leaves _
    search_for-Leaves business_id (some query) =
        bind-Leaves _ _ (resolve-Leaves business_id query) (list_matches-Leaves query)

    pub stock_of-Leaves :
        (business_id : ℕ) (query : Option String)
        → Leaves view (stock_of contains lower business_id query)
    unfolding stock_of
    stock_of-Leaves business_id none = pure-Leaves _
    stock_of-Leaves business_id (some query) =
        bind-Leaves _ _ (resolve-Leaves business_id query) λ matches.
          with_single-Leaves query _ matches λ product.
            bind-Leaves _ _
              (attempt-Leaves _ _ (get_inventory_by_product-Leaves business_id product.id))
              (tell_stock-Leaves product)

module _ ⦃env : Env⦄ where
  tell_adjusted-Leaves :
      (product : Product) (quantity : ℕ) (delta : ℤ) (current : Inventory)
      (updated : Option Inventory)
      → Leaves but_stock (tell_adjusted product quantity delta current updated)
  unfolding tell_adjusted
  tell_adjusted-Leaves product quantity delta current none = pure-Leaves _
  tell_adjusted-Leaves product quantity delta current (some updated) = pure-Leaves _

  write_stock-Leaves :
      (business_id : ℕ) (inventory : Inventory) (delta : ℤ) (movement_type : MovementType)
      (actor : Option ℕ)
      → Leaves but_stock (write_stock business_id inventory delta movement_type actor)
  unfolding write_stock add_movement
  write_stock-Leaves business_id inventory delta movement_type actor =
      search (leaving, refl) depth 20

  publish_pending-Leaves : (event : Option LowStock) → Leaves but_stock (publish_pending event)
  publish_pending-Leaves none = pure-Leaves _
  publish_pending-Leaves (some event) = publish-Leaves _

  adjust_stock-Leaves :
      (business_id inventory_id : ℕ) (delta : ℤ) (movement_type : MovementType) (actor : Option ℕ)
      → Leaves but_stock (adjust_stock business_id inventory_id delta movement_type actor)
  unfolding adjust_stock lock_for_update
  adjust_stock-Leaves business_id inventory_id delta movement_type actor =
      search (leaving, refl, write_stock-Leaves, publish_pending-Leaves) depth 20

  adjust_known-Leaves :
      (business_id : ℕ) (product : Product) (increasing : Bool) (quantity : ℕ)
      (movement_type : Option MovementType) (actor : Option ℕ) (found : Option Inventory)
      → Leaves but_stock
          (adjust_known business_id product increasing quantity movement_type actor found)
  unfolding adjust_known adjust_stock_by_product
  adjust_known-Leaves business_id product increasing quantity movement_type actor none =
      pure-Leaves _
  adjust_known-Leaves business_id product increasing quantity movement_type actor (some current) =
      bind-Leaves _ _
        (attempt-Leaves _ _ (
          bind-Leaves _ _ (get_inventory_by_product-Leaves business_id product.id)
            λ inventory. adjust_stock-Leaves business_id inventory.id _ _ actor))
        (tell_adjusted-Leaves product quantity _ current)

  module _ (contains : String → String → Bool) (lower : String → String) where
    adjust_quantity-Leaves :
        (business_id : ℕ) (query : String) (increasing : Bool) (quantity : Option ℕ)
        (movement_type : Option MovementType) (actor : Option ℕ)
        → Leaves but_stock (
            adjust_quantity contains lower business_id query increasing quantity movement_type
              actor)
    unfolding adjust_quantity
    adjust_quantity-Leaves business_id query increasing none movement_type actor = pure-Leaves _
    adjust_quantity-Leaves business_id query increasing (some quantity) movement_type actor =
        bind-Leaves _ _ (resolve-Leaves contains lower business_id query) λ matches.
          with_single-Leaves query _ matches λ product.
            bind-Leaves _ _
              (attempt-Leaves _ _ (get_inventory_by_product-Leaves business_id product.id))
              (adjust_known-Leaves business_id product increasing quantity movement_type actor)

    adjust-Leaves :
        (business_id : ℕ) (entities : IntentEntities) (query : Option String) (actor : Option ℕ)
        → Leaves but_stock (adjust contains lower business_id entities query actor)
    unfolding adjust
    adjust-Leaves business_id entities none actor = pure-Leaves _
    adjust-Leaves business_id entities (some query) actor =
        adjust_quantity-Leaves business_id query _ _ _ actor

    dispatch-Leaves :
        (business_id : ℕ) (intent : ResolvedIntent) (kind : IntentType) (actor : Option ℕ)
        → Leaves but_stock (dispatch contains lower business_id intent kind actor)
    unfolding dispatch
    dispatch-Leaves business_id intent search_product actor =
        search_for-Leaves contains lower business_id (given intent.entities.product_query)
    dispatch-Leaves business_id intent get_stock actor =
        stock_of-Leaves contains lower business_id (given intent.entities.product_query)
    dispatch-Leaves business_id intent IntentType.adjust_stock actor =
        adjust-Leaves business_id intent.entities (given intent.entities.product_query) actor
    dispatch-Leaves business_id intent unsupported actor = pure-Leaves _
    dispatch-Leaves business_id intent clarification_required actor = pure-Leaves _

    module _ (provider : String → Resolved) (threshold : Decimal) where
      answer-Leaves :
          (business_id : ℕ) (actor : Option ℕ) (r : Resolved)
          → Leaves but_stock (answer contains lower provider threshold business_id actor r)
      unfolding answer act
      answer-Leaves business_id actor failed = pure-Leaves _
      answer-Leaves business_id actor crashed = raise-Leaves _
      answer-Leaves business_id actor (resolved intent) =
          bind-Leaves _ _
            (if-Leaves _ (pure-Leaves _) (
              catch-Leaves _ _ (dispatch-Leaves business_id intent intent.intent actor)
                λ e. pure-Leaves _))
            λ r. pure-Leaves _

      pub handle-Leaves :
          (send : OutgoingMessage → String) (incoming : IncomingMessage) (actor : Option ℕ)
          → Leaves but_stock (handle contains lower provider threshold send incoming actor)
      unfolding handle
      handle-Leaves send incoming actor =
          if-Leaves _ (pure-Leaves _)
            (bind-Leaves _ _ (answer-Leaves incoming.business_id actor _) λ r. pure-Leaves _)
