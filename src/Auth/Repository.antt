-- ===== src/Auth/Repository.antt =====
-- app/auth/repository.py: `UserRepository`.
use vyapar_ai.Prelude.{ℕ, String, Bool, ◌&&◌, Option, List, [], ◌∷◌, ◌++◌, ◌==◌, str_eq, is_some}
use vyapar_ai.Common.Result.{ok}
use vyapar_ai.Models.Business.{User}
use vyapar_ai.Models.Rows.{select, one_or_none, first, order_by}
use vyapar_ai.Database.Tables.{Tables}
use vyapar_ai.Database.Session.{Env, Exec, pure, query, modify, fresh, flush, ◌>>=◌, ◌>>◌}

unfoldable pub get_by_email : String → Exec (Option User)
get_by_email email = query (λ t. one_or_none (select (λ (u : User). str_eq u.email email) t.users))

unfoldable pub email_exists : String → Exec Bool
email_exists email =
    query (λ t. ok (is_some (first (select (λ (u : User). str_eq u.email email) t.users))))

abbrev pub at_id : ℕ → ℕ → User → Bool
at_id user_id business_id u = u.id == user_id && u.business_id == business_id

unfoldable pub get_in_business : ℕ → ℕ → Exec (Option User)
get_in_business user_id business_id =
    query (λ t. one_or_none (select (at_id user_id business_id) t.users))

unfoldable pub list_by_business : ℕ → Exec (List User)
list_by_business business_id = query (λ t.
    ok
      (order_by (λ (u : User). u.id) (select (λ (u : User). u.business_id == business_id) t.users)))

abbrev pub insert_user : User → Tables → Tables
insert_user u t = record t { users = t.users ++ u ∷ [] }

module _ ⦃env : Env⦄ where
  unfoldable pub add : User → Exec User
  unfolding flush
  add user = do
    key ← fresh
    let row = record user { id = key }
    modify (insert_user row)
    flush
    pure row
