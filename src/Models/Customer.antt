-- ===== src/Models/Customer.antt =====
-- app/customer/models.py: `Customer` and `CustomerAddress`.
use vyapar_ai.Prelude.{ℕ, String, Bool, not, ◌&&◌, List, ◌==◌, str_eq}
use vyapar_ai.Models.Rows.{unique, unique_key}

pub record Customer : Type 0 where
  pub id : ℕ
  pub business_id : ℕ
  pub name : String
  pub phone : String
  pub is_deleted : Bool

pub record CustomerAddress : Type 0 where
  pub id : ℕ
  pub business_id : ℕ
  pub customer_id : ℕ
  pub line : String
  pub city : String
  pub pin : String

-- The primary key.
unfoldable pub addresses_admitted : List CustomerAddress → Bool
unfolding unique_key
addresses_admitted rows = unique_key (λ (a : CustomerAddress). a.id) rows

-- Two active customers of a business with one phone.
abbrev pub same_phone : Customer → Customer → Bool
same_phone c d =
    c.business_id == d.business_id && str_eq c.phone d.phone && not c.is_deleted && not d.is_deleted

-- The primary key and `uq_customer_business_phone_active`.
unfoldable pub customers_admitted : List Customer → Bool
unfolding unique unique_key
customers_admitted rows = unique_key (λ (c : Customer). c.id) rows && unique same_phone rows
