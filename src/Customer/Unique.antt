-- ===== src/Customer/Unique.antt =====
-- The checks of app/customer/service.py for a phone that an active customer has.
use vyapar_ai.Prelude.{ℕ, String, ◌≡◌, Bool, true, not, ◌&&◌, any, ◌==◌, str_eq, arith}
use vyapar_ai.Common.Patch.{Patch, value}
use vyapar_ai.Models.Customer.{Customer}
use vyapar_ai.Database.Refuses.{
  Refuses, Reads, query-Reads, bind-Reads, or_raise-Reads, after_read, refused_by_found,
}
use vyapar_ai.Database.Session.{Env, Session, query}
use vyapar_ai.Customer.{get_customer, phone_clashes, create, update}
use vyapar_ai.Customer.Repository.{get, active_phone_exists}

-- An active customer of the business has the phone, other than the customer `except`.
abbrev pub has_phone : ℕ → String → Customer → Bool
has_phone business_id phone c =
    c.business_id == business_id && str_eq c.phone phone && not c.is_deleted

get_customer-Reads : (business_id customer_id : ℕ) → Reads (get_customer business_id customer_id)
unfolding get_customer get
get_customer-Reads business_id customer_id =
    bind-Reads _ _ (query-Reads _) λ found. or_raise-Reads found _

-- One that is not the customer `customer_id`.
abbrev pub other_has_phone : ℕ → String → ℕ → Customer → Bool
other_has_phone business_id phone customer_id c =
    has_phone business_id phone c && not (c.id == customer_id)

phone_clashes-Reads :
    (business_id customer_id : ℕ) (phone : String)
    → Reads (phone_clashes business_id (value phone) customer_id)
unfolding phone_clashes active_phone_exists
phone_clashes-Reads business_id customer_id phone = query-Reads _

module _ ⦃env : Env⦄ (s : Session) (business_id customer_id : ℕ) (phone : String)
    (taken : any (other_has_phone business_id phone customer_id) s.work.customers ≡ true) where
  create-Refuses : (name : String) → Refuses (create business_id name phone) s
  unfolding create active_phone_exists query
  create-Refuses name = after_read _ _ s (query-Reads _) λ found e.
      refused_by_found _ _ s.work.customers found _ _ s (λ r k. ground (arith, k)) taken e

  update-Refuses :
      (name : Patch String)
      → Refuses (update business_id customer_id (record { name = name; phone = value phone })) s
  unfolding update phone_clashes active_phone_exists query
  update-Refuses name = after_read _ _ s (get_customer-Reads business_id customer_id) λ customer _.
      after_read _ _ s (phone_clashes-Reads business_id customer_id phone) λ found e.
        refused_by_found _ _ s.work.customers found _ _ s (λ r k. ground (arith, k)) taken e

  -- When another active customer of the business has the phone, neither a customer is created with
  -- it, nor is one given it by an update: both calls raise before they send a write, and leave the
  -- session exactly as it was, so they do not rest on the unique index. An update may set any name.
  pub writes-Refuses :
      (name : String) (new_name : Patch String)
      → Refuses (create business_id name phone) s
        × Refuses
            (update business_id customer_id (record { name = new_name; phone = value phone }))
            s
  writes-Refuses name new_name = (create-Refuses name, update-Refuses new_name)
