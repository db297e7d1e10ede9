-- ===== src/Models/Business.antt =====
-- app/business/models.py, app/auth/models.py and the roles of app/common/security.py.
use vyapar_ai.Prelude.{ℕ, String, Bool, ◌&&◌, Option, List, str_eq}
use vyapar_ai.Models.Payment.{same_key}
use vyapar_ai.Models.Rows.{unique, unique_key}

pub data PaymentPreference : Type 0 where
  online cod both : PaymentPreference

pub data Role : Type 0 where
  owner employee admin : Role

pub record Business : Type 0 where
  pub id : ℕ
  pub name : String
  pub category : String
  pub contact_number : String
  pub address : String
  pub whatsapp_number : Option String
  pub pin_hash : Option String
  pub payment_preference : PaymentPreference
  pub is_active : Bool

pub record User : Type 0 where
  pub id : ℕ
  pub business_id : ℕ
  pub email : String
  pub password_hash : String
  pub role : Role
  pub is_active : Bool

-- `uq_business_whatsapp_number`
abbrev pub same_whatsapp : Business → Business → Bool
same_whatsapp a b = same_key a.whatsapp_number b.whatsapp_number

abbrev pub same_email : User → User → Bool
same_email u v = str_eq u.email v.email

-- The primary key and the constraint of `Business.__table_args__`.
unfoldable pub businesses_admitted : List Business → Bool
unfolding unique unique_key
businesses_admitted rows = unique_key (λ (b : Business). b.id) rows && unique same_whatsapp rows

-- The primary key and the unique column `email`.
unfoldable pub users_admitted : List User → Bool
unfolding unique unique_key
users_admitted rows = unique_key (λ (u : User). u.id) rows && unique same_email rows
