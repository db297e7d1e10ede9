-- ===== src/Customer/Repository.antt =====
-- app/customer/repository.py: `CustomerRepository` and `CustomerAddressRepository`.
use vyapar_ai.Prelude.{
  ℕ, String, Bool, true, not, ◌&&◌, ◌||◌, Option, none, some, List, [], ◌∷◌, ◌++◌, ◌==◌, str_eq,
  is_some,
}
use vyapar_ai.Common.Result.{ok}
use vyapar_ai.Models.Customer.{Customer, CustomerAddress}
use vyapar_ai.Models.Rows.{select, one_or_none, first, order_by, assign}
use vyapar_ai.Database.Tables.{Tables}
use vyapar_ai.Database.Session.{Env, Exec, pure, query, modify, fresh, flush, reload, ◌>>=◌, ◌>>◌}

-- `get(business_id, customer_id, include_deleted=...)`
unfoldable pub get : ℕ → ℕ → Bool → Exec (Option Customer)
get business_id customer_id include_deleted = query (λ t. one_or_none (
    select
      (λ (c : Customer).
        c.id == customer_id
        && c.business_id == business_id
        && (include_deleted || not c.is_deleted))
      t.customers))

unfoldable pub list : ℕ → Exec (List Customer)
list business_id = query (λ t. ok (
    order_by (λ (c : Customer). c.id)
      (select (λ (c : Customer). c.business_id == business_id && not c.is_deleted) t.customers)))

-- `Customer.id != exclude_customer_id`, where one is given
abbrev pub is_other : Option ℕ → ℕ → Bool
is_other none id = true
is_other (some excluded) id = not (id == excluded)

unfoldable pub active_phone_exists : ℕ → String → Option ℕ → Exec Bool
active_phone_exists business_id phone exclude_customer_id = query (λ t. ok (
    is_some (
      first (
        select
          (λ (c : Customer).
            c.business_id == business_id
            && str_eq c.phone phone
            && not c.is_deleted
            && is_other exclude_customer_id c.id)
          t.customers))))

-- The attributes of a loaded row, written by the next flush.
abbrev pub set_customer : Customer → Tables → Tables
set_customer c t = record t { customers = assign (λ (d : Customer). d.id) c t.customers }

abbrev pub insert_customer : Customer → Tables → Tables
insert_customer c t = record t { customers = t.customers ++ c ∷ [] }

-- `session.refresh(customer)`
abbrev pub refresh : Customer → Exec Customer
refresh = reload (λ (c : Customer). c.id) (λ t. t.customers)

abbrev pub insert_address : CustomerAddress → Tables → Tables
insert_address a t = record t { addresses = t.addresses ++ a ∷ [] }

unfoldable pub list_for_customer : ℕ → ℕ → Exec (List CustomerAddress)
list_for_customer business_id customer_id = query (λ t. ok (
    order_by (λ (a : CustomerAddress). a.id)
      (select
        (λ (a : CustomerAddress). a.business_id == business_id && a.customer_id == customer_id)
        t.addresses)))

-- `session.refresh(address)`
abbrev pub refresh_address : CustomerAddress → Exec CustomerAddress
refresh_address = reload (λ (a : CustomerAddress). a.id) (λ t. t.addresses)

module _ ⦃env : Env⦄ where
  unfoldable pub add : Customer → Exec Customer
  unfolding flush
  add customer = do
    key ← fresh
    let row = record customer { id = key }
    modify (insert_customer row)
    flush
    pure row

  -- `CustomerAddressRepository.add`
  unfoldable pub add_address_row : CustomerAddress → Exec CustomerAddress
  unfolding flush
  add_address_row address = do
    key ← fresh
    let row = record address { id = key }
    modify (insert_address row)
    flush
    pure row
