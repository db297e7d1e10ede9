-- ===== src/Models/Catalog.antt =====
-- app/catalog/models.py: `Category` and `Product`.
use vyapar_ai.Prelude.{ℕ, String, Option, Bool, not, ◌&&◌, List, ◌==◌, str_eq}
use vyapar_ai.Common.Decimal.{Decimal}
use vyapar_ai.Models.Rows.{unique, unique_key}

pub record Category : Type 0 where
  pub id : ℕ
  pub business_id : ℕ
  pub name : String

-- The primary key and `uq_category_business_name`.
unfoldable pub categories_admitted : List Category → Bool
unfolding unique unique_key
categories_admitted rows =
    unique_key (λ (c : Category). c.id) rows
    && unique (λ (c d : Category). c.business_id == d.business_id && str_eq c.name d.name) rows

pub record Product : Type 0 where
  pub id : ℕ
  pub business_id : ℕ
  pub category_id : Option ℕ
  pub name : String
  pub description : Option String
  pub price_amt : Decimal
  pub sku : String
  pub is_deleted : Bool

-- Two active products of a business with one SKU.
abbrev pub same_sku : Product → Product → Bool
same_sku p q =
    p.business_id == q.business_id && str_eq p.sku q.sku && not p.is_deleted && not q.is_deleted

-- The primary key and `uq_product_business_sku_active`.
unfoldable pub products_admitted : List Product → Bool
unfolding unique unique_key
products_admitted rows = unique_key (λ (p : Product). p.id) rows && unique same_sku rows
