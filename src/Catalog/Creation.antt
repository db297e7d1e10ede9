-- ===== src/Catalog/Creation.antt =====
-- What `create_product` of app/catalog/service.py has done when it returns.
use vyapar_ai.Prelude.{
  ℕ, ◌+◌, ◌≡◌, refl, sym, ap, ◌∙◌, true, false, ◌==◌, Option, none, some, [], ◌∷◌, ◌++◌, arith,
}
use vyapar_ai.Models.Catalog.{Product, products_admitted}
use vyapar_ai.Models.Rows.{select, first, unique_key}
use vyapar_ai.Models.Rows.Append.{first-select_append}
use vyapar_ai.Database.Tables.{Tables, admitted}
use vyapar_ai.Database.Session.{Env, Session, fresh, sent, pure, commit, ◌>>=◌, ◌>>◌}
use vyapar_ai.Database.Ends.{Ends, Held, bind-Ends, pure-Ends, or_conflict-Ends, sent-admitted}
use vyapar_ai.Database.Steps.{
  after_known, after_modify, after_flush, after_commit, reload-Ends, after_steps, after_pure,
  after_query, after_or_raise, after_raise_if,
}
use vyapar_ai.Catalog.{sku_taken, ProductCreate, validate_category_ownership, create_product}
use vyapar_ai.Catalog.Repository.{get_category_row, active_sku_exists, add, insert_product, refresh}

pub keyed : (t : Tables) → admitted t ≡ true → unique_key (λ (p : Product). p.id) t.products ≡ true
unfolding admitted products_admitted
keyed t h = ground arith

module _ ⦃env : Env⦄ (business_id : ℕ) (payload : ProductCreate) (s : Session) where
  -- The row of the product.
  abbrev pub row_of : ℕ → Product
  row_of key = record {
    id = key;
    business_id = business_id;
    category_id = payload.category_id;
    name = payload.name;
    description = payload.description;
    price_amt = payload.price;
    sku = payload.sku;
    is_deleted = false;
  }

  pub record Creates (p : Product) (t : Session) : Type 0 where
    pub key : ℕ
    pub result : p ≡ row_of key
    pub committed : t.committed ≡ t.work
    pub tables : t.work ≡ insert_product (row_of key) s.work
    pub admitted_after : admitted t.work ≡ true

  category-Ends :
      (category_id : Option ℕ)
      → Ends
          (λ r t. t ≡ s)
          (λ e t. Unit {0})
          (validate_category_ownership business_id category_id)
          s
  unfolding validate_category_ownership get_category_row
  category-Ends none = pure-Ends tt refl
  category-Ends (some category_id) =
      after_query _ _ (λ _ _. tt)
        λ found _. after_or_raise found _ _ (λ _. tt) λ c _. pure-Ends tt refl

  -- The end of the creation, when the row has been committed.
  created :
      (t : Session)
      → t.work ≡ insert_product (row_of (env.next_id s.calls)) s.work
      → sent t ≡ none
      → Creates
          (row_of (env.next_id s.calls))
          (record t { calls = t.calls + 1; committed = t.work })
  created t h accepted = record {
    key = env.next_id s.calls;
    result = refl;
    committed = refl;
    tables = h;
    admitted_after = sent-admitted t accepted;
  }

  refreshed :
      (p : Product) (t : Session) → Creates p t → Ends Creates (λ e t. Unit {0}) (refresh p) t
  refreshed p t h = reload-Ends _ _ p there h
    where
      rows : t.work.products ≡ s.work.products ++ p ∷ []
      rows =
          ap (λ (w : Tables). w.products) h.tables
          ∙ ap (λ q. s.work.products ++ q ∷ []) (sym h.result)

      there : first (select (λ (q : Product). q.id == p.id) t.work.products) ≡ some p
      there = rw rows (
          first-select_append (λ (q : Product). q.id) s.work.products p
            (ap (unique_key (λ (q : Product). q.id)) (sym rows) ∙ keyed t.work h.admitted_after))

  insert-Ends : Ends Creates (λ e t. Held s t) (add (row_of 0) >>= λ row. commit >> pure row) s
  unfolding add fresh
  insert-Ends = after_steps _ _ _ (
      after_known fresh _ refl (
        after_steps _ _ _ (
          after_modify _ _ (
            after_steps _ _ _ (
              after_flush _ (λ _ _. (refl, refl))
                λ _. after_pure _ _ (
                  after_commit _ (λ _ _. (refl, refl))
                    λ accepted. pure-Ends _ (created _ refl accepted)))))))

  pub create_product-Ends : Ends Creates (λ e t. Unit {0}) (create_product business_id payload) s
  unfolding create_product active_sku_exists
  create_product-Ends = bind-Ends _ _ (category-Ends payload.category_id) λ r t h. rw h (
      after_query _ _ (λ _ _. tt)
        λ taken _.
          after_raise_if taken _ _ (λ _. tt)
            λ _. bind-Ends _ _ (or_conflict-Ends s sku_taken _ insert-Ends (λ _ _ _. tt)) refreshed)
