-- ===== src/Catalog/Unique.antt =====
-- The checks of app/catalog/service.py for a SKU that an active product has.
use vyapar_ai.Prelude.{
  ℕ, String, ◌≡◌, Bool, true, not, ◌&&◌, any, ◌==◌, str_eq, arith, Option, none, some,
}
use vyapar_ai.Common.Patch.{Patch, value}
use vyapar_ai.Models.Catalog.{Product}
use vyapar_ai.Database.Refuses.{
  Refuses, Reads, pure-Reads, query-Reads, bind-Reads, or_raise-Reads, after_read, refused_by_found,
}
use vyapar_ai.Database.Session.{Env, Session, query}
use vyapar_ai.Catalog.{
  ProductCreate, ProductUpdate, get_product, validate_category_ownership, validate_new_category,
  sku_clashes, create_product, update_product,
}
use vyapar_ai.Catalog.Repository.{get, get_category_row, active_sku_exists}

-- An active product of the business has the SKU, and is not the product `product_id`.
abbrev pub other_has_sku : ℕ → String → ℕ → Product → Bool
other_has_sku business_id sku product_id p =
    p.business_id == business_id && str_eq p.sku sku && not p.is_deleted && not (p.id == product_id)

get_product-Reads : (business_id product_id : ℕ) → Reads (get_product business_id product_id)
unfolding get_product get
get_product-Reads business_id product_id =
    bind-Reads _ _ (query-Reads _) λ found. or_raise-Reads found _

validate_category_ownership-Reads :
    (business_id : ℕ) (category_id : Option ℕ)
    → Reads (validate_category_ownership business_id category_id)
unfolding validate_category_ownership get_category_row
validate_category_ownership-Reads business_id none = pure-Reads tt
validate_category_ownership-Reads business_id (some category_id) =
    bind-Reads _ _ (query-Reads _)
      λ found. bind-Reads _ _ (or_raise-Reads found _) λ _. pure-Reads tt

validate_new_category-Reads :
    (business_id : ℕ) (category_id : Patch ℕ)
    → Reads (validate_new_category business_id category_id)
unfolding validate_new_category
validate_new_category-Reads business_id (Patch.value category_id) =
    validate_category_ownership-Reads business_id (some category_id)
validate_new_category-Reads business_id _ = pure-Reads tt

sku_clashes-Reads :
    (business_id product_id : ℕ) (sku : String)
    → Reads (sku_clashes business_id (value sku) product_id)
unfolding sku_clashes active_sku_exists
sku_clashes-Reads business_id product_id sku = query-Reads _

module _ ⦃env : Env⦄ (s : Session) (business_id product_id : ℕ) (sku : String)
    (taken : any (other_has_sku business_id sku product_id) s.work.products ≡ true) where
  create_product-Refuses :
      (payload : ProductCreate)
      → Refuses (create_product business_id (record payload { sku = sku })) s
  unfolding create_product active_sku_exists query
  create_product-Refuses payload =
      after_read _ _ s (validate_category_ownership-Reads business_id payload.category_id) λ _ _.
        after_read _ _ s (query-Reads _) λ found e.
          refused_by_found _ _ s.work.products found _ _ s (λ r k. ground (arith, k)) taken e

  update_product-Refuses :
      (payload : ProductUpdate)
      → Refuses (update_product business_id product_id (record payload { sku = value sku })) s
  unfolding update_product sku_clashes active_sku_exists query
  update_product-Refuses payload =
      after_read _ _ s (get_product-Reads business_id product_id) λ product _.
        after_read _ _ s (validate_new_category-Reads business_id payload.category_id) λ _ _.
          after_read _ _ s (sku_clashes-Reads business_id product_id sku) λ found e.
            refused_by_found _ _ s.work.products found _ _ s (λ r k. ground (arith, k)) taken e

  -- When another active product of the business has the SKU, neither a product is created with it,
  -- nor is one given it by an update, whatever else the payloads ask for: both calls raise before
  -- they send a write, and leave the session exactly as it was, so they do not rest on the unique
  -- index.
  pub payloads-Refuses :
      (payload : ProductCreate) (changes : ProductUpdate)
      → Refuses (create_product business_id (record payload { sku = sku })) s
        × Refuses (update_product business_id product_id (record changes { sku = value sku })) s
  payloads-Refuses payload changes =
      (create_product-Refuses payload, update_product-Refuses changes)
