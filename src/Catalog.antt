-- ===== src/Catalog.antt =====
-- app/catalog/service.py: the categories and products of `CatalogService`, without their images.
pub mod Repository
pub mod Unique
pub mod Creation
use vyapar_ai.Prelude.{ℕ, String, Bool, true, false, ◌||◌, Option, none, some, List}
use vyapar_ai.Common.Error.{not_found_error, validation_error, conflict_error, integrity_error}
use vyapar_ai.Common.Decimal.{Decimal}
use vyapar_ai.Common.Patch.{Patch, patched, patched_option, is_null}
use vyapar_ai.Models.Catalog.{Category, Product}
use vyapar_ai.Database.Session.{
  Env, Exec, pure, or_raise, ◌>>=◌, ◌>>◌, raise_if, modify, or_rollback, or_conflict, commit,
}
use Repository.{
  get, get_category_row, exists_by_name, active_sku_exists, add, add_category, list_category_rows,
  list_product_rows, set_product, refresh,
}

-- app/catalog/schemas.py: what a client submits, and the fields that it has set.
pub record ProductCreate : Type 0 where
  pub name : String
  pub price : Decimal
  pub sku : String
  pub category_id : Option ℕ
  pub description : Option String

pub record ProductUpdate : Type 0 where
  pub name : Patch String
  pub price : Patch Decimal
  pub sku : Patch String
  pub category_id : Patch ℕ
  pub description : Patch String

abbrev pub sku_taken : String
sku_taken = "sku already exists for this business"

abbrev pub name_taken : String
name_taken = "category name already exists"

unfoldable pub list_categories : ℕ → Exec (List Category)
unfolding list_category_rows
list_categories business_id = list_category_rows business_id

unfoldable pub get_category : ℕ → ℕ → Exec Category
unfolding get_category_row
get_category business_id category_id = do
  found ← get_category_row business_id category_id
  or_raise found (not_found_error "category not found")

-- `_validate_category_ownership`
unfoldable pub validate_category_ownership : ℕ → Option ℕ → Exec (Unit {0})
unfolding get_category_row
validate_category_ownership business_id none = pure tt
validate_category_ownership business_id (some category_id) = do
  found ← get_category_row business_id category_id
  or_raise found (validation_error "category does not exist for this business")
  pure tt

-- `if "category_id" in data: ...`
unfoldable pub validate_new_category : ℕ → Patch ℕ → Exec (Unit {0})
unfolding validate_category_ownership
validate_new_category business_id (Patch.value category_id) =
    validate_category_ownership business_id (some category_id)
validate_new_category business_id _ = pure tt

-- `"sku" in data and self._products.active_sku_exists(...)`
unfoldable pub sku_clashes : ℕ → Patch String → ℕ → Exec Bool
unfolding active_sku_exists
sku_clashes business_id (Patch.value sku) product_id =
    active_sku_exists business_id sku (some product_id)
sku_clashes business_id _ product_id = pure false

unfoldable pub get_product : ℕ → ℕ → Exec Product
unfolding get
get_product business_id product_id = do
  found ← get business_id product_id false
  or_raise found (not_found_error "product not found")

unfoldable pub list_products :
    (String → String → Bool) → ℕ → Option String → Option ℕ → Exec (List Product)
unfolding list_product_rows
list_products contains business_id keyword category_id =
    list_product_rows contains business_id keyword category_id

module _ ⦃env : Env⦄ where
  unfoldable pub create_category : ℕ → String → Exec Category
  unfolding exists_by_name add_category commit
  create_category business_id name = do
    taken ← exists_by_name business_id name
    raise_if taken (conflict_error name_taken)
    or_conflict name_taken (do
      row ← add_category (record { id = 0; business_id = business_id; name = name })
      commit
      pure row)

  unfoldable pub create_product : ℕ → ProductCreate → Exec Product
  unfolding validate_category_ownership active_sku_exists add commit
  create_product business_id payload = do
    validate_category_ownership business_id payload.category_id
    taken ← active_sku_exists business_id payload.sku none
    raise_if taken (conflict_error sku_taken)
    product ← or_conflict sku_taken (do
      row ← add (record {
        id = 0;
        business_id = business_id;
        category_id = payload.category_id;
        name = payload.name;
        description = payload.description;
        price_amt = payload.price;
        sku = payload.sku;
        is_deleted = false;
      })
      commit
      pure row)
    refresh product

  unfoldable pub update_product : ℕ → ℕ → ProductUpdate → Exec Product
  unfolding get_product validate_new_category sku_clashes commit
  update_product business_id product_id payload = do
    product ← get_product business_id product_id
    validate_new_category business_id payload.category_id
    taken ← sku_clashes business_id payload.sku product_id
    raise_if taken (conflict_error sku_taken)
    let changed = record product {
      name = patched payload.name product.name;
      description = patched_option payload.description product.description;
      sku = patched payload.sku product.sku;
      category_id = patched_option payload.category_id product.category_id;
      price_amt = patched payload.price product.price_amt;
    }
    or_conflict sku_taken (do
      -- the columns are NOT NULL
      raise_if (is_null payload.name || is_null payload.sku || is_null payload.price)
          integrity_error
      modify (set_product changed)
      commit)
    refresh changed

  unfoldable pub soft_delete_product : ℕ → ℕ → Exec (Unit {0})
  unfolding get_product commit
  soft_delete_product business_id product_id = do
    product ← get_product business_id product_id
    or_rollback (do modify (set_product (record product { is_deleted = true })); commit)
