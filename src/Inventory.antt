-- ===== src/Inventory.antt =====
-- app/inventory/service.py: `InventoryService`, the single authority for stock changes.
pub mod Repository
pub mod Stock
pub mod Balance
pub mod Ledger
pub mod Supply
use vyapar_ai.Prelude.{ℕ, String, false, Option, none, some, List, if◌then◌else◌}
use vyapar_ai.Prelude.Int.{ℤ, pos, ◌+ℤ◌, ltb_ℤ, leb_ℤ, eqb_ℤ}
use vyapar_ai.Common.Error.{
  Error, not_found_error, validation_error, conflict_error, insufficient_stock_error,
}
use vyapar_ai.Common.Event.{LowStock, low_stock}
use vyapar_ai.Models.Inventory.{Inventory, StockMovement, MovementType}
use vyapar_ai.Catalog
use vyapar_ai.Database.Session.{
  Env, Exec, pure, raise, or_raise, ◌>>=◌, ◌>>◌, raise_if, modify, or_rollback, or_conflict,
  publish, commit,
}
use Repository.{
  add, add_movement, get, get_by_product, lock_for_update, lock_for_update_by_product,
  exists_for_product, list, list_for_inventory, set_inventory, refresh,
}

-- `_require`, and `get_inventory`
unfoldable pub get_inventory : ℕ → ℕ → Exec Inventory
unfolding get
get_inventory business_id inventory_id = do
  found ← get business_id inventory_id
  or_raise found (not_found_error "inventory not found")

unfoldable pub get_inventory_by_product : ℕ → ℕ → Exec Inventory
unfolding get_by_product
get_inventory_by_product business_id product_id = do
  found ← get_by_product business_id product_id
  or_raise found (not_found_error "inventory not found")

unfoldable pub list_inventory : ℕ → Exec (List Inventory)
unfolding list
list_inventory business_id = list business_id

unfoldable pub list_movements : ℕ → ℕ → Exec (List StockMovement)
unfolding get_inventory list_for_inventory
list_movements business_id inventory_id = do
  get_inventory business_id inventory_id
  list_for_inventory business_id inventory_id

abbrev negative_threshold : Error
negative_threshold = validation_error "low_stock_threshold must be non-negative"

abbrev pub zero_delta : Error
zero_delta = validation_error "delta must be non-zero"

abbrev pub no_inventory : Error
no_inventory = not_found_error "inventory not found"

abbrev pub insufficient : Error
insufficient = insufficient_stock_error "insufficient stock for this adjustment"

abbrev duplicate_inventory : String
duplicate_inventory = "inventory already exists for this product"

-- The event that an adjustment leaves, where the changed row is low on stock.
unfoldable pub pending_event : ℕ → ℕ → Inventory → Option LowStock
pending_event business_id product_id changed =
    if leb_ℤ changed.quantity changed.low_stock_threshold
    then some (record {
      business_id = business_id;
      product_id = product_id;
      quantity = changed.quantity;
      threshold = changed.low_stock_threshold;
    })
    else none

abbrev pub publish_pending : Option LowStock → Exec (Unit {0})
publish_pending none = pure tt
publish_pending (some e) = publish (low_stock e)

module _ ⦃env : Env⦄ where
  unfoldable pub create_inventory : ℕ → ℕ → ℤ → ℤ → Exec Inventory
  unfolding add exists_for_product Catalog.Repository.get commit
  create_inventory business_id product_id quantity low_stock_threshold = do
    product ← Catalog.Repository.get business_id product_id false
    or_raise product (not_found_error "product not found")
    taken ← exists_for_product business_id product_id
    raise_if taken (conflict_error duplicate_inventory)
    inventory ← or_conflict duplicate_inventory (do
      row ← add (record {
        id = 0;
        business_id = business_id;
        product_id = product_id;
        quantity = quantity;
        low_stock_threshold = low_stock_threshold;
      })
      commit
      pure row)
    refresh inventory

  unfoldable pub update_threshold : ℕ → ℕ → ℤ → Exec Inventory
  unfolding get_inventory commit
  update_threshold business_id inventory_id low_stock_threshold = do
    raise_if (ltb_ℤ low_stock_threshold (pos 0)) negative_threshold
    inventory ← get_inventory business_id inventory_id
    let changed = record inventory { low_stock_threshold = low_stock_threshold }
    or_rollback (do modify (set_inventory changed); commit)
    refresh changed

  -- The part of `adjust_stock` and of `stage_adjustment` that works on the locked row: its guards,
  -- the new quantity and the movement.
  unfoldable pub write_stock : ℕ → Inventory → ℤ → MovementType → Option ℕ → Exec Inventory
  unfolding add_movement
  write_stock business_id inventory delta movement_type actor_user_id = do
    let new_quantity = inventory.quantity +ℤ delta
    raise_if (ltb_ℤ new_quantity (pos 0)) insufficient
    let changed = record inventory { quantity = new_quantity }
    modify (set_inventory changed)
    add_movement (record {
      id = 0;
      business_id = business_id;
      inventory_id = inventory.id;
      product_id = inventory.product_id;
      delta = delta;
      resulting_quantity = new_quantity;
      movement_type = movement_type;
      actor_user_id = actor_user_id;
    })
    pure changed

  unfoldable pub adjust_stock : ℕ → ℕ → ℤ → MovementType → Option ℕ → Exec Inventory
  unfolding lock_for_update
  adjust_stock business_id inventory_id delta movement_type actor_user_id = do
    raise_if (eqb_ℤ delta (pos 0)) zero_delta
    inventory ← or_rollback (do
      found ← lock_for_update business_id inventory_id
      locked ← or_raise found no_inventory
      changed ← write_stock business_id locked delta movement_type actor_user_id
      commit
      pure changed)
    refreshed ← refresh inventory
    publish_pending (pending_event business_id inventory.product_id inventory)
    pure refreshed

  unfoldable pub stage_adjustment : ℕ → ℕ → ℤ → MovementType → Option ℕ → Exec (Option LowStock)
  unfolding lock_for_update_by_product
  stage_adjustment business_id product_id delta movement_type actor_user_id = do
    raise_if (eqb_ℤ delta (pos 0)) zero_delta
    found ← lock_for_update_by_product business_id product_id
    locked ← or_raise found no_inventory
    changed ← write_stock business_id locked delta movement_type actor_user_id
    pure (pending_event business_id product_id changed)

  unfoldable pub adjust_stock_by_product : ℕ → ℕ → ℤ → MovementType → Option ℕ → Exec Inventory
  unfolding get_inventory_by_product adjust_stock
  adjust_stock_by_product business_id product_id delta movement_type actor_user_id = do
    inventory ← get_inventory_by_product business_id product_id
    adjust_stock business_id inventory.id delta movement_type actor_user_id
