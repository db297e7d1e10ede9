-- ===== src/Models/Inventory.antt =====
-- app/inventory/models.py: stock records and their append-only history.
use vyapar_ai.Prelude.{ℕ, Bool, not, ◌&&◌, Option, List, all, ◌==◌}
use vyapar_ai.Prelude.Int.{ℤ, pos, leb_ℤ, eqb_ℤ}
use vyapar_ai.Models.Rows.{unique, unique_key}

pub data MovementType : Type 0 where
  restock sale manual_adjustment damage : MovementType

pub record Inventory : Type 0 where
  pub id : ℕ
  pub business_id : ℕ
  pub product_id : ℕ
  pub quantity : ℤ
  pub low_stock_threshold : ℤ

-- `Inventory.is_low`
unfoldable pub is_low : Inventory → Bool
is_low inv = leb_ℤ inv.quantity inv.low_stock_threshold

pub record StockMovement : Type 0 where
  pub id : ℕ
  pub business_id : ℕ
  pub inventory_id : ℕ
  pub product_id : ℕ
  pub delta : ℤ
  pub resulting_quantity : ℤ
  pub movement_type : MovementType
  pub actor_user_id : Option ℕ

-- The primary key and the constraints of `Inventory.__table_args__`.
unfoldable pub inventories_admitted : List Inventory → Bool
unfolding unique unique_key all
inventories_admitted rows =
    unique_key (λ (r : Inventory). r.id) rows
    && unique (λ (r q : Inventory). r.product_id == q.product_id) rows
    && all (λ (r : Inventory). leb_ℤ (pos 0) r.quantity) rows
    && all (λ (r : Inventory). leb_ℤ (pos 0) r.low_stock_threshold) rows

-- The primary key and the constraints of `StockMovement.__table_args__`.
unfoldable pub movements_admitted : List StockMovement → Bool
unfolding unique unique_key all
movements_admitted rows =
    unique_key (λ (m : StockMovement). m.id) rows
    && all (λ (m : StockMovement). not (eqb_ℤ m.delta (pos 0))) rows
    && all (λ (m : StockMovement). leb_ℤ (pos 0) m.resulting_quantity) rows
