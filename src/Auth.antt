-- ===== src/Auth.antt =====
-- app/auth/service.py: `AuthService`. The JWTs of app/common/security.py and the hashing of passlib
-- are parameters.
pub mod Repository
pub mod Tokens
pub mod Rotation
pub mod Guard
use vyapar_ai.Prelude.{ℕ, String, Bool, true, not, ◌||◌, Option, none, some, if◌then◌else◌}
use vyapar_ai.Common.Error.{Error, authentication_error, conflict_error}
use vyapar_ai.Common.Result.{Result, ok, err}
use vyapar_ai.Models.Business.{Business, User, Role, PaymentPreference}
use vyapar_ai.Database.Session.{
  Env, Session, Exec, pure, or_raise, ◌>>=◌, ◌>>◌, raise_if, or_rollback, commit,
}
use vyapar_ai.Business.{PasswordHasher}
use vyapar_ai.Business.Repository.{add as add_business}
use Repository.{get_by_email, email_exists, get_in_business, add}
use Tokens.{RevokedTokens, is_revoked, revoke}

-- app/auth/schemas.py
pub record RegisterRequest : Type 0 where
  pub business_name : String
  pub category : String
  pub contact_number : String
  pub address : String
  pub email : String
  pub password : String

pub record UserCreate : Type 0 where
  pub email : String
  pub password : String
  pub role : Role

pub record TokenPair : Type 0 where
  pub access_token : String
  pub refresh_token : String

-- app/common/security.py: what a decoded token says.
pub record TokenClaims : Type 0 where
  pub user_id : ℕ
  pub business_id : ℕ
  pub role : Role
  pub jti : String

-- `create_access_token`, `create_refresh_token` and `decode_token(token, expected_type="refresh")`,
-- by the number of the call, which stands for the time and the random `jti`.
pub record Jwt : Type 0 where
  pub create_access_token : ℕ → ℕ → ℕ → Role → String
  pub create_refresh_token : ℕ → ℕ → ℕ → Role → String
  pub decode_refresh : ℕ → String → Result TokenClaims

abbrev pub email_taken : Error
email_taken = conflict_error "email is already registered"

abbrev pub invalid_credentials : Error
invalid_credentials = authentication_error "invalid credentials"

abbrev pub inactive : Error
inactive = authentication_error "account is inactive"

abbrev pub revoked_token : Error
revoked_token = authentication_error "refresh token has been revoked"

-- The user that a refresh token names, if it may go on.
unfoldable pub active_user : Result (Option User) → Result User
active_user (err e) = err e
active_user (ok none) = err inactive
active_user (ok (some user)) = if not user.is_active then err inactive else ok user

module _ (jwt : Jwt) (hasher : PasswordHasher) where
  -- `_issue_tokens`
  abbrev pub issue_tokens : ℕ → User → TokenPair
  issue_tokens call user = record {
    access_token = jwt.create_access_token call user.id user.business_id user.role;
    refresh_token = jwt.create_refresh_token call user.id user.business_id user.role;
  }

  -- The two tests of `login`, on the row that has the e-mail address.
  unfoldable pub check_password : Option User → String → Result User
  check_password none password = err invalid_credentials
  check_password (some user) password =
      if not (hasher.verify password user.password_hash)
      then err invalid_credentials
      else if not user.is_active
      then err inactive
      else ok user

  unfoldable pub login : ℕ → String → String → Exec TokenPair
  unfolding get_by_email check_password
  login call email password s =
      let (found, t) = get_by_email email s in
      elim found [
        | err e ↦ (err e, t)
        | ok row ↦ elim (check_password row password) [
          | err e ↦ (err e, t)
          | ok user ↦ (ok (issue_tokens call user), t)
        ]
      ]

  -- The end of `refresh`: the token that was presented is revoked, and a pair is issued.
  unfoldable pub rotate :
      ℕ → ℕ → ℕ → TokenClaims → Result User → RevokedTokens → Result TokenPair × RevokedTokens
  unfolding revoke
  rotate ttl_seconds call now claims (err e) store = (err e, store)
  rotate ttl_seconds call now claims (ok user) store =
      (ok (issue_tokens call user), revoke claims.jti ttl_seconds now store)

  -- `refresh`, in a call at the time `now`: it reads the tables and changes the token store.
  unfoldable pub refresh :
      ℕ → ℕ → ℕ → String → Session → RevokedTokens → Result TokenPair × RevokedTokens
  unfolding get_in_business is_revoked active_user rotate
  refresh ttl_seconds call now token s store = elim (jwt.decode_refresh call token) [
    | err e ↦ (err e, store)
    | ok claims ↦
        let (gone, kept) = is_revoked claims.jti now store in
        if gone
        then (err revoked_token, kept)
        else rotate ttl_seconds call now claims
            (active_user (get_in_business claims.user_id claims.business_id s).0) kept
  ]

  unfoldable pub logout : ℕ → ℕ → ℕ → String → RevokedTokens → Result (Unit {0}) × RevokedTokens
  unfolding revoke
  logout ttl_seconds call now token store = elim (jwt.decode_refresh call token) [
    | err e ↦ (err e, store)
    | ok claims ↦ (ok tt, revoke claims.jti ttl_seconds now store)
  ]

  module _ ⦃env : Env⦄ where
    -- The business, its first user and their commit.
    unfoldable pub register : ℕ → RegisterRequest → Exec (User × TokenPair)
    unfolding email_exists add_business add commit
    register call payload = do
      taken ← email_exists payload.email
      raise_if taken email_taken
      user ← or_rollback (do
        business ← add_business (record {
          id = 0;
          name = payload.business_name;
          category = payload.category;
          contact_number = payload.contact_number;
          address = payload.address;
          whatsapp_number = none;
          pin_hash = none;
          payment_preference = PaymentPreference.cod;
          is_active = true;
        })
        user ← add (record {
          id = 0;
          business_id = business.id;
          email = payload.email;
          password_hash = hasher.hash call payload.password;
          role = Role.owner;
          is_active = true;
        })
        commit
        pure user)
      pure (user, issue_tokens call user)

    unfoldable pub create_user : ℕ → ℕ → UserCreate → Exec User
    unfolding email_exists add commit
    create_user call business_id payload = do
      taken ← email_exists payload.email
      raise_if taken email_taken
      or_rollback (do
        user ← add (record {
          id = 0;
          business_id = business_id;
          email = payload.email;
          password_hash = hasher.hash call payload.password;
          role = payload.role;
          is_active = true;
        })
        commit
        pure user)
