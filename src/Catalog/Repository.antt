-- ===== src/Catalog/Repository.antt =====
-- app/catalog/repository.py: `CategoryRepository` and `ProductRepository`.
use vyapar_ai.Prelude.{
  ℕ, String, Bool, true, false, not, ◌&&◌, ◌||◌, Option, none, some, List, [], ◌∷◌, ◌++◌, ◌==◌,
  str_eq, is_some, if◌then◌else◌,
}
use Prim.Native.String.{compare}
use text.Mathlib.Text.{is_le}
use vyapar_ai.Common.Result.{ok}
use vyapar_ai.Models.Catalog.{Category, Product}
use vyapar_ai.Models.Rows.{select, one_or_none, first, order_by, assign}
use vyapar_ai.Database.Tables.{Tables}
use vyapar_ai.Database.Session.{Env, Exec, pure, query, modify, fresh, flush, reload, ◌>>=◌, ◌>>◌}

-- `get(business_id, product_id, include_deleted=...)`
unfoldable pub get : ℕ → ℕ → Bool → Exec (Option Product)
get business_id product_id include_deleted = query (λ t. one_or_none (
    select
      (λ (p : Product).
        p.id == product_id && p.business_id == business_id && (include_deleted || not p.is_deleted))
      t.products))

-- `Product.category_id == category_id`, where one is given
abbrev in_category : Option ℕ → Option ℕ → Bool
in_category none category = true
in_category (some category_id) none = false
in_category (some category_id) (some category) = category == category_id

-- `if keyword: Product.name.ilike(f"%{keyword}%")`; `contains` is PostgreSQL's comparison of a name with
-- the pattern around a keyword.
abbrev has_keyword : (String → String → Bool) → Option String → String → Bool
has_keyword contains none name = true
has_keyword contains (some keyword) name = str_eq keyword "" || contains keyword name

unfoldable pub list_product_rows :
    (String → String → Bool) → ℕ → Option String → Option ℕ → Exec (List Product)
list_product_rows contains business_id keyword category_id = query (λ t. ok (
    order_by (λ (p : Product). p.id)
      (select
        (λ (p : Product).
          p.business_id == business_id
          && not p.is_deleted
          && in_category category_id p.category_id
          && has_keyword contains keyword p.name)
        t.products)))

-- `Product.id != exclude_product_id`, where one is given
abbrev pub is_other : Option ℕ → ℕ → Bool
is_other none id = true
is_other (some excluded) id = not (id == excluded)

unfoldable pub active_sku_exists : ℕ → String → Option ℕ → Exec Bool
active_sku_exists business_id sku exclude_product_id = query (λ t. ok (
    is_some (
      first (
        select
          (λ (p : Product).
            p.business_id == business_id
            && str_eq p.sku sku
            && not p.is_deleted
            && is_other exclude_product_id p.id)
          t.products))))

unfoldable pub get_category_row : ℕ → ℕ → Exec (Option Category)
get_category_row business_id category_id = query (λ t.
    one_or_none
      (select (λ (c : Category). c.id == category_id && c.business_id == business_id) t.categories))

unfoldable pub exists_by_name : ℕ → String → Exec Bool
exists_by_name business_id name = query (λ t. ok (
    is_some (
      first (
        select (λ (c : Category). c.business_id == business_id && str_eq c.name name)
          t.categories))))

-- `CategoryRepository.list`; names are ordered by their characters, as the collation "C" does.
unfoldable insert_by_name : Category → List Category → List Category
insert_by_name c [] = c ∷ []
insert_by_name c (d ∷ rows) =
    let later = d ∷ insert_by_name c rows in
    if is_le (compare c.name d.name) then c ∷ d ∷ rows else later

unfoldable order_by_name : List Category → List Category
unfolding insert_by_name
order_by_name [] = []
order_by_name (c ∷ rows) = insert_by_name c (order_by_name rows)

unfoldable pub list_category_rows : ℕ → Exec (List Category)
unfolding order_by_name
list_category_rows business_id =
    query (λ t.
      ok (order_by_name (select (λ (c : Category). c.business_id == business_id) t.categories)))

-- The attributes of a loaded row, written by the next flush.
abbrev pub set_product : Product → Tables → Tables
set_product p t = record t { products = assign (λ (q : Product). q.id) p t.products }

abbrev pub insert_product : Product → Tables → Tables
insert_product p t = record t { products = t.products ++ p ∷ [] }

abbrev pub insert_category : Category → Tables → Tables
insert_category c t = record t { categories = t.categories ++ c ∷ [] }

-- `session.refresh(product)`
abbrev pub refresh : Product → Exec Product
refresh = reload (λ (p : Product). p.id) (λ t. t.products)

module _ ⦃env : Env⦄ where
  -- `ProductRepository.add`
  unfoldable pub add : Product → Exec Product
  unfolding flush
  add product = do
    key ← fresh
    let row = record product { id = key }
    modify (insert_product row)
    flush
    pure row

  -- `CategoryRepository.add`
  unfoldable pub add_category : Category → Exec Category
  unfolding flush
  add_category category = do
    key ← fresh
    let row = record category { id = key }
    modify (insert_category row)
    flush
    pure row
