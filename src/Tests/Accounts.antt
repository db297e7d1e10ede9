-- ===== src/Tests/Accounts.antt =====
-- The rotation of refresh tokens, at a sample account.
use vyapar_ai.Prelude.{List, [], ◌∷◌, ◌≡◌, refl, true, arith}
use vyapar_ai.Common.Result.{ok, err}
use vyapar_ai.Common.Dict.{lookup}
use vyapar_ai.Models.Business.{User, Role}
use vyapar_ai.Models.Rows.{select, one_or_none}
use vyapar_ai.Database.Session.{Session, session_on, query}
use vyapar_ai.Business.{PasswordHasher}
use vyapar_ai.Auth.{Jwt, TokenPair, refresh, revoked_token}
use vyapar_ai.Auth.Tokens.{RevokedTokens}
use vyapar_ai.Auth.Rotation.{TokenCall, logging_out, after_calls, refresh_once}
use vyapar_ai.Tests.Sample.{shop}

abbrev hasher : PasswordHasher
hasher = record { hash = λ call raw. raw; verify = λ raw hashed. true }

-- A token that is its own `jti`.
abbrev jwt : Jwt
jwt = record {
  create_access_token = λ call user_id business_id role. "access";
  create_refresh_token = λ call user_id business_id role. "refresh";
  decode_refresh =
      λ call token. ok (record { user_id = 5; business_id = 7; role = Role.owner; jti = token });
}

abbrev owner : User
owner = record {
  id = 5;
  business_id = 7;
  email = "asha@example.com";
  password_hash = "secret";
  role = Role.owner;
  is_active = true;
}

abbrev signed_in : Session
signed_in = session_on (record shop { users = owner ∷ [] })

abbrev pair : TokenPair
pair = record { access_token = "access"; refresh_token = "refresh" }

-- The store after the token `t1` has been exchanged at the time 10.
abbrev rotated : RevokedTokens
rotated = (refresh jwt hasher 100 1 10 "t1" signed_in []).1

rotated_run : (refresh jwt hasher 100 1 10 "t1" signed_in []).0 ≡ ok pair
unfolding refresh select one_or_none lookup query
rotated_run = refl

-- Another token is logged out in between.
abbrev between : List TokenCall
between = logging_out 2 20 "t2" ∷ []

refresh_once_example :
    refresh jwt hasher 100 3 30 "t1" signed_in (after_calls jwt hasher 100 between rotated)
    ≡ (err revoked_token, after_calls jwt hasher 100 between rotated)
refresh_once_example =
    refresh_once jwt hasher 100 1 10 "t1" signed_in [] between 3 30 "t1" signed_in refl rotated_run
      ((omega arith, omega arith), tt) refl refl (omega arith)
