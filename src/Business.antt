-- ===== src/Business.antt =====
-- app/business/service.py: `BusinessService`. The hashing of passlib is a parameter.
pub mod Repository
use vyapar_ai.Prelude.{ℕ, String, Bool, not, ◌&&◌, ◌||◌, Option, none, some}
use vyapar_ai.Common.Error.{not_found_error, validation_error, conflict_error, integrity_error}
use vyapar_ai.Common.Patch.{Patch, patched, is_null}
use vyapar_ai.Models.Business.{Business, PaymentPreference}
use vyapar_ai.Models.Payment.{same_key}
use vyapar_ai.Database.Session.{
  Env, Exec, pure, or_raise, ◌>>=◌, ◌>>◌, raise_if, modify, or_rollback, commit,
}
use Repository.{get, whatsapp_number_exists, set_business, refresh}

-- app/business/schemas.py: the fields that a client has set.
pub record BusinessUpdate : Type 0 where
  pub name : Patch String
  pub category : Patch String
  pub contact_number : Patch String
  pub address : Patch String

-- `hash_secret` and `verify_secret` of app/common/security.py, which are calls of passlib. A hash is
-- salted, so each call of `hash` is given the number of the call.
pub record PasswordHasher : Type 0 where
  pub hash : ℕ → String → String
  pub verify : String → String → Bool

-- `_require`, and `get`
unfoldable pub get_business : ℕ → Exec Business
unfolding get
get_business business_id = do
  found ← get business_id
  or_raise found (not_found_error "business not found")

unfoldable pub verify_pin : PasswordHasher → ℕ → String → Exec Bool
unfolding get_business
verify_pin hasher business_id pin = do
  business ← get_business business_id
  hashed ← or_raise business.pin_hash (validation_error "business PIN is not set")
  pure (hasher.verify pin hashed)

module _ ⦃env : Env⦄ where
  -- The transaction that writes a loaded row.
  abbrev pub save : Business → Exec (Unit {0})
  save changed = or_rollback (do modify (set_business changed); commit)

  unfoldable pub update_profile : ℕ → BusinessUpdate → Exec Business
  unfolding get_business commit
  update_profile business_id payload = do
    business ← get_business business_id
    let changed = record business {
      name = patched payload.name business.name;
      category = patched payload.category business.category;
      contact_number = patched payload.contact_number business.contact_number;
      address = patched payload.address business.address;
    }
    or_rollback (do
      -- the columns are NOT NULL
      raise_if
          (is_null payload.name
            || is_null payload.category
            || is_null payload.contact_number
            || is_null payload.address)
          integrity_error
      modify (set_business changed)
      commit)
    refresh changed

  unfoldable pub link_whatsapp : ℕ → String → Exec Business
  unfolding get_business whatsapp_number_exists commit
  link_whatsapp business_id whatsapp_number = do
    business ← get_business business_id
    existing ← whatsapp_number_exists whatsapp_number
    raise_if (existing && not (same_key business.whatsapp_number (some whatsapp_number)))
        (conflict_error "whatsapp number is already linked to another business")
    let changed = record business { whatsapp_number = some whatsapp_number }
    save changed
    refresh changed

  unfoldable pub update_payment_preference : ℕ → PaymentPreference → Exec Business
  unfolding get_business commit
  update_payment_preference business_id preference = do
    business ← get_business business_id
    let changed = record business { payment_preference = preference }
    save changed
    refresh changed

  unfoldable pub set_pin : PasswordHasher → ℕ → ℕ → String → Exec (Unit {0})
  unfolding get_business commit
  set_pin hasher salt business_id pin = do
    business ← get_business business_id
    save (record business { pin_hash = some (hasher.hash salt pin) })
