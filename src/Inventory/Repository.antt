-- ===== src/Inventory/Repository.antt =====
-- app/inventory/repository.py: the queries and inserts on `inventory` and `stock_movement`.
use vyapar_ai.Prelude.{ℕ, Bool, ◌&&◌, Option, List, [], ◌∷◌, ◌++◌, ◌==◌, is_some}
use vyapar_ai.Common.Result.{ok}
use vyapar_ai.Models.Inventory.{Inventory, StockMovement}
use vyapar_ai.Models.Rows.{select, one_or_none, first, order_by, assign}
use vyapar_ai.Database.Tables.{Tables}
use vyapar_ai.Database.Session.{Env, Exec, pure, query, modify, fresh, flush, reload, ◌>>=◌, ◌>>◌}

-- `Inventory.id == inventory_id, Inventory.business_id == business_id`
abbrev pub at_id : ℕ → ℕ → Inventory → Bool
at_id business_id inventory_id r = r.id == inventory_id && r.business_id == business_id

-- `Inventory.product_id == product_id, Inventory.business_id == business_id`
abbrev pub at_product : ℕ → ℕ → Inventory → Bool
at_product business_id product_id r = r.product_id == product_id && r.business_id == business_id

unfoldable pub get : ℕ → ℕ → Exec (Option Inventory)
get business_id inventory_id =
    query (λ t. one_or_none (select (at_id business_id inventory_id) t.inventories))

unfoldable pub get_by_product : ℕ → ℕ → Exec (Option Inventory)
get_by_product business_id product_id =
    query (λ t. one_or_none (select (at_product business_id product_id) t.inventories))

-- The row lock keeps other transactions out, and does not show within one session.
unfoldable pub lock_for_update : ℕ → ℕ → Exec (Option Inventory)
lock_for_update business_id inventory_id =
    query (λ t. one_or_none (select (at_id business_id inventory_id) t.inventories))

unfoldable pub lock_for_update_by_product : ℕ → ℕ → Exec (Option Inventory)
lock_for_update_by_product business_id product_id =
    query (λ t. one_or_none (select (at_product business_id product_id) t.inventories))

unfoldable pub exists_for_product : ℕ → ℕ → Exec Bool
exists_for_product business_id product_id =
    query (λ t. ok (is_some (first (select (at_product business_id product_id) t.inventories))))

unfoldable pub list : ℕ → Exec (List Inventory)
list business_id = query (λ t. ok (
    order_by (λ (r : Inventory). r.id)
      (select (λ (r : Inventory). r.business_id == business_id) t.inventories)))

unfoldable pub list_for_inventory : ℕ → ℕ → Exec (List StockMovement)
list_for_inventory business_id inventory_id = query (λ t. ok (
    order_by (λ (m : StockMovement). m.id)
      (select
        (λ (m : StockMovement). m.business_id == business_id && m.inventory_id == inventory_id)
        t.movements)))

-- The attributes of a loaded row, written by the next flush.
abbrev pub set_inventory : Inventory → Tables → Tables
set_inventory r t = record t { inventories = assign (λ (q : Inventory). q.id) r t.inventories }

abbrev pub insert_inventory : Inventory → Tables → Tables
insert_inventory r t = record t { inventories = t.inventories ++ r ∷ [] }

abbrev pub insert_movement : StockMovement → Tables → Tables
insert_movement m t = record t { movements = t.movements ++ m ∷ [] }

-- `session.refresh(inventory)`
abbrev pub refresh : Inventory → Exec Inventory
refresh = reload (λ (r : Inventory). r.id) (λ t. t.inventories)

module _ ⦃env : Env⦄ where
  -- `InventoryRepository.add`
  unfoldable pub add : Inventory → Exec Inventory
  unfolding flush
  add inventory = do
    key ← fresh
    let row = record inventory { id = key }
    modify (insert_inventory row)
    flush
    pure row

  -- `StockMovementRepository.add`
  unfoldable pub add_movement : StockMovement → Exec StockMovement
  unfolding flush
  add_movement movement = do
    key ← fresh
    let row = record movement { id = key }
    modify (insert_movement row)
    flush
    pure row
