-- ===== src/Auth/Guard.antt =====
-- app/auth/dependencies.py: the guards of the routes.
use vyapar_ai.Prelude.{
  ℕ, String, Bool, true, false, not, any, Option, none, some, List, str_eq, if◌then◌else◌,
}
use vyapar_ai.Common.Error.{authentication_error, authorization_error}
use vyapar_ai.Common.Result.{Result, ok, err}
use vyapar_ai.Models.Business.{Role, User}
use vyapar_ai.Database.Session.{Exec, pure, lift, or_raise, raise_if, ◌>>=◌, ◌>>◌}
use vyapar_ai.Business.{PasswordHasher, verify_pin}
use vyapar_ai.Auth.{TokenClaims}
use vyapar_ai.Auth.Repository.{get_in_business}

pub record Principal : Type 0 where
  pub user_id : ℕ
  pub business_id : ℕ
  pub role : Role

abbrev same_role : Role → Role → Bool
same_role Role.owner Role.owner = true
same_role Role.employee Role.employee = true
same_role Role.admin Role.admin = true
same_role _ _ = false

-- A header or a credential that is there and not empty.
abbrev given : Option String → Option String
given none = none
given (some text) = if str_eq text "" then none else some text

-- The row behind the claims, if it may act.
unfoldable pub principal_of : Option User → Result Principal
principal_of none = err (authentication_error "user is inactive or no longer exists")
principal_of (some user) =
    if not user.is_active
    then err (authentication_error "user is inactive or no longer exists")
    else ok (record { user_id = user.id; business_id = user.business_id; role = user.role })

-- `decode` is `decode_token(token, expected_type="access")`.
unfoldable pub get_current_principal :
    (String → Result TokenClaims) → Option String → Exec Principal
unfolding get_in_business principal_of
get_current_principal decode credentials = do
  token ← or_raise (given credentials) (authentication_error "missing bearer token")
  claims ← lift (decode token)
  user ← get_in_business claims.user_id claims.business_id
  lift (principal_of user)

-- `require_role(*allowed)`
unfoldable pub require_role : List Role → Principal → Result Principal
unfolding any
require_role allowed principal =
    if any (same_role principal.role) allowed
    then ok principal
    else err (authorization_error "insufficient role for this operation")

unfoldable pub require_pin : PasswordHasher → Principal → Option String → Exec Principal
unfolding verify_pin
require_pin hasher principal x_business_pin = do
  pin ←
      or_raise (given x_business_pin) (authorization_error "business PIN required for this action")
  valid ← verify_pin hasher principal.business_id pin
  raise_if (not valid) (authorization_error "invalid business PIN")
  pure principal
