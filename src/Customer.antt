-- ===== src/Customer.antt =====
-- app/customer/service.py: `CustomerService`.
pub mod Repository
pub mod Unique
use vyapar_ai.Prelude.{◌||◌, ℕ, String, Bool, false, Option, none, some, List}
use vyapar_ai.Common.Error.{not_found_error, conflict_error, integrity_error}
use vyapar_ai.Common.Patch.{Patch, patched, is_null}
use vyapar_ai.Models.Customer.{Customer, CustomerAddress}
use vyapar_ai.Database.Session.{
  Env, Exec, pure, or_raise, ◌>>=◌, ◌>>◌, raise_if, modify, or_rollback, or_conflict, commit,
}
use Repository.{
  get, list, active_phone_exists, add, set_customer, list_for_customer, add_address_row,
  refresh_address, refresh,
}

-- app/customer/schemas.py: the fields that a client has set.
pub record CustomerUpdate : Type 0 where
  pub name : Patch String
  pub phone : Patch String

abbrev pub phone_taken : String
phone_taken = "a customer with this phone already exists"

unfoldable pub get_customer : ℕ → ℕ → Exec Customer
unfolding get
get_customer business_id customer_id = do
  found ← get business_id customer_id false
  or_raise found (not_found_error "customer not found")

unfoldable pub list_customers : ℕ → Exec (List Customer)
unfolding list
list_customers business_id = list business_id

-- `"phone" in data and self._customers.active_phone_exists(...)`
unfoldable pub phone_clashes : ℕ → Patch String → ℕ → Exec Bool
unfolding active_phone_exists
phone_clashes business_id (Patch.value phone) customer_id =
    active_phone_exists business_id phone (some customer_id)
phone_clashes business_id _ customer_id = pure false

unfoldable pub list_addresses : ℕ → ℕ → Exec (List CustomerAddress)
unfolding get_customer list_for_customer
list_addresses business_id customer_id = do
  get_customer business_id customer_id
  list_for_customer business_id customer_id

module _ ⦃env : Env⦄ where
  unfoldable pub create : ℕ → String → String → Exec Customer
  unfolding active_phone_exists add commit
  create business_id name phone = do
    taken ← active_phone_exists business_id phone none
    raise_if taken (conflict_error phone_taken)
    customer ← or_conflict phone_taken (do
      row ← add (record {
        id = 0;
        business_id = business_id;
        name = name;
        phone = phone;
        is_deleted = false;
      })
      commit
      pure row)
    refresh customer

  unfoldable pub update : ℕ → ℕ → CustomerUpdate → Exec Customer
  unfolding get_customer phone_clashes commit
  update business_id customer_id payload = do
    customer ← get_customer business_id customer_id
    taken ← phone_clashes business_id payload.phone customer_id
    raise_if taken (conflict_error phone_taken)
    let changed = record customer {
      name = patched payload.name customer.name;
      phone = patched payload.phone customer.phone;
    }
    or_conflict phone_taken (do
      -- the columns are NOT NULL
      raise_if (is_null payload.name || is_null payload.phone) integrity_error
      modify (set_customer changed)
      commit)
    refresh changed

  unfoldable pub soft_delete : ℕ → ℕ → Exec (Unit {0})
  unfolding get_customer commit
  soft_delete business_id customer_id = do
    customer ← get_customer business_id customer_id
    or_rollback (do modify (set_customer (record customer { is_deleted = Bool.true })); commit)

  unfoldable pub add_address : ℕ → ℕ → String → String → String → Exec CustomerAddress
  unfolding get_customer add_address_row commit
  add_address business_id customer_id line city pin = do
    get_customer business_id customer_id
    address ← or_rollback (do
      row ← add_address_row (record {
        id = 0;
        business_id = business_id;
        customer_id = customer_id;
        line = line;
        city = city;
        pin = pin;
      })
      commit
      pure row)
    refresh_address address
