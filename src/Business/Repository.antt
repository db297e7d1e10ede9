-- ===== src/Business/Repository.antt =====
-- app/business/repository.py: `BusinessRepository`.
use vyapar_ai.Prelude.{ℕ, String, Bool, Option, some, [], ◌∷◌, ◌++◌, ◌==◌, is_some}
use vyapar_ai.Common.Result.{ok}
use vyapar_ai.Models.Business.{Business}
use vyapar_ai.Models.Payment.{same_key}
use vyapar_ai.Models.Rows.{select, one_or_none, first, assign}
use vyapar_ai.Database.Tables.{Tables}
use vyapar_ai.Database.Session.{Env, Exec, pure, query, modify, fresh, flush, reload, ◌>>=◌, ◌>>◌}

-- `session.get(Business, business_id)`
unfoldable pub get : ℕ → Exec (Option Business)
get business_id =
    query (λ t. one_or_none (select (λ (b : Business). b.id == business_id) t.businesses))

unfoldable pub whatsapp_number_exists : String → Exec Bool
whatsapp_number_exists number = query (λ t. ok (
    is_some
      (first (select (λ (b : Business). same_key b.whatsapp_number (some number)) t.businesses))))

-- The attributes of a loaded row, written by the next flush.
abbrev pub set_business : Business → Tables → Tables
set_business b t = record t { businesses = assign (λ (c : Business). c.id) b t.businesses }

abbrev pub insert_business : Business → Tables → Tables
insert_business b t = record t { businesses = t.businesses ++ b ∷ [] }

-- `session.refresh(business)`
abbrev pub refresh : Business → Exec Business
refresh = reload (λ (b : Business). b.id) (λ t. t.businesses)

module _ ⦃env : Env⦄ where
  unfoldable pub add : Business → Exec Business
  unfolding flush
  add business = do
    key ← fresh
    let row = record business { id = key }
    modify (insert_business row)
    flush
    pure row
