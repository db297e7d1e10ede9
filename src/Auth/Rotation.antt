-- ===== src/Auth/Rotation.antt =====
-- A refresh token is used once: what app/auth/service.py and app/auth/tokens.py make of a token that
-- has been exchanged or logged out.
use vyapar_ai.Prelude.{
  ℕ, ◌+◌, ◌≤◌, ◌<◌, String, ◌≡◌, refl, ap, ◌∙◌, Bool, true, false, Option, none, some, List, [],
  ◌∷◌, leb, str_eq, eq_iff, arith, if◌then◌else◌, inl, inr, Bool-cases, All,
}
use vyapar_ai.Common.Dict.{lookup}
use vyapar_ai.Common.Result.{Result, ok, err}
use vyapar_ai.Models.Business.{User}
use vyapar_ai.Models.Rows.{select}
use vyapar_ai.Database.Session.{Session}
use vyapar_ai.Business.{PasswordHasher}
use vyapar_ai.Auth.{
  Jwt, TokenClaims, TokenPair, active_user, rotate, refresh, logout, revoked_token,
}
use vyapar_ai.Auth.Repository.{get_in_business}
use vyapar_ai.Auth.Tokens.{RevokedTokens, purge, remove, revoke, check_entry, is_revoked}

lookup-purge :
    (jti : String) (now e : ℕ) (revoked : RevokedTokens)
    → lookup jti revoked ≡ some e
    → leb e now ≡ false
    → lookup jti (purge now revoked) ≡ some e
unfolding lookup purge select
lookup-purge jti now e [] h l = cc
lookup-purge jti now e (entry ∷ revoked) h l = ground (arith, lookup-purge jti now e revoked)

lookup-remove_other :
    (jti other : String) (revoked : RevokedTokens)
    → str_eq other jti ≡ false
    → lookup jti (remove other revoked) ≡ lookup jti revoked
unfolding lookup remove select
lookup-remove_other jti other [] h = refl
lookup-remove_other jti other (entry ∷ revoked) h = elim (Bool-cases (str_eq entry.0 other)) [
  | inl t ↦
      let apart : str_eq entry.0 jti ≡ false =
        ap (λ x. str_eq x jti) ((eq_iff entry.0 other).0 t) ∙ h in
      rw (t, apart) (lookup-remove_other jti other revoked h)
  | inr t ↦ rw t (ground (arith, lookup-remove_other jti other revoked h))
]

-- The store knows a token as revoked, until `time` at least.
abbrev pub IsRevokedUntil : String → ℕ → RevokedTokens → Type 0
IsRevokedUntil jti time revoked = (e : ℕ) × (lookup jti revoked ≡ some e) × (time ≤ e)

module _ (jti : String) (time now : ℕ) (revoked : RevokedTokens)
    (h : IsRevokedUntil jti time revoked) (early : now < time) where
  pending : leb (h.0) now ≡ false
  pending = ground (arith, h.2, early)

  -- It stays so when another token is revoked, or the same again for as long.
  revoke-IsRevokedUntil :
      (other : String) (ttl : ℕ)
      → time ≤ now + ttl
      → IsRevokedUntil jti time (revoke other ttl now revoked)
  unfolding revoke lookup
  revoke-IsRevokedUntil other ttl long = elim (Bool-cases (str_eq other jti)) [
    | inl t ↦ (now + ttl, rw t refl, long)
    | inr t ↦ (
      h.0,
      rw t (
          lookup-remove_other jti other (purge now revoked) t
          ∙ lookup-purge jti now h.0 revoked h.1 pending),
      h.2,
    )
  ]

  -- The test finds it, and the test of another token leaves it.
  is_revoked_lem : is_revoked jti now revoked ≡ (true, revoked)
  unfolding is_revoked check_entry
  is_revoked_lem = rw h.1 (rw pending refl)

  removed :
      (other : String) → str_eq other jti ≡ false → IsRevokedUntil jti time (remove other revoked)
  removed other t = (h.0, lookup-remove_other jti other revoked t ∙ h.1, h.2)

  check_entry-IsRevokedUntil :
      (other : String) (o : Option ℕ)
      → str_eq other jti ≡ false
      → IsRevokedUntil jti time (check_entry other now revoked o).1
  unfolding check_entry
  check_entry-IsRevokedUntil other none t = h
  check_entry-IsRevokedUntil other (some e) t = elim (Bool-cases (leb e now)) [
    | inl gone ↦ rw gone (removed other t)
    | inr kept ↦ rw kept h
  ]

  is_revoked-IsRevokedUntil :
      (other : String) → IsRevokedUntil jti time (is_revoked other now revoked).1
  unfolding is_revoked
  is_revoked-IsRevokedUntil other = elim (Bool-cases (str_eq other jti)) [
    | inl t ↦ rw ((eq_iff other jti).0 t) (rw is_revoked_lem h)
    | inr t ↦ check_entry-IsRevokedUntil other (lookup other revoked) t
  ]

rotated :
    (jwt : Jwt) (hasher : PasswordHasher) (ttl call now : ℕ) (claims : TokenClaims)
    (user : Result User) (store : RevokedTokens) {pair : TokenPair}
    → (rotate jwt hasher ttl call now claims user store).0 ≡ ok pair
    → IsRevokedUntil claims.jti (now + ttl) (rotate jwt hasher ttl call now claims user store).1
unfolding rotate revoke lookup
rotated jwt hasher ttl call now claims (err e) store h = cc h
rotated jwt hasher ttl call now claims (ok user) store h =
    (now + ttl, rw ((eq_iff claims.jti claims.jti).1 refl) refl, omega arith)

-- A call of `refresh` or of `logout`: its number and time, the token, and the session.
pub data TokenCall : Type 0 where
  refreshing : ℕ → ℕ → String → Session → TokenCall
  logging_out : ℕ → ℕ → String → TokenCall

abbrev pub time_of : TokenCall → ℕ
time_of (refreshing call now token s) = now
time_of (logging_out call now token) = now

module _ (jwt : Jwt) (hasher : PasswordHasher) (ttl : ℕ) where
  module _ (call now : ℕ) (token : String) (s : Session) (store : RevokedTokens)
      {claims : TokenClaims} (decoded : jwt.decode_refresh call token ≡ ok claims) where
    abbrev test : Bool × RevokedTokens
    test = is_revoked claims.jti now store

    refresh_decoded : refresh jwt hasher ttl call now token s store ≡ (
        if test.0
        then (err revoked_token, test.1)
        else rotate jwt hasher ttl call now claims
            (active_user (get_in_business claims.user_id claims.business_id s).0)
            test.1)
    unfolding refresh
    refresh_decoded = rw (refresh, decoded) refl

    refresh-IsRevokedUntil :
        {pair : TokenPair}
        → (refresh jwt hasher ttl call now token s store).0 ≡ ok pair
        → IsRevokedUntil claims.jti (now + ttl) (refresh jwt hasher ttl call now token s store).1
    refresh-IsRevokedUntil h = elim (Bool-cases test.0) [
      | inl gone ↦ cc (rw (refresh_decoded, gone) at h)
      | inr kept ↦
          rw (refresh_decoded, kept)
            (rotated jwt hasher ttl call now claims _ test.1 (rw (refresh_decoded, kept) at h))
    ]

    refresh_revoked :
        {time : ℕ}
        → IsRevokedUntil claims.jti time store
        → now < time
        → refresh jwt hasher ttl call now token s store ≡ (err revoked_token, store)
    refresh_revoked h early =
        rw (refresh_decoded, is_revoked_lem claims.jti _ now store h early) refl

  -- The store after a call.
  unfoldable pub after_call : TokenCall → RevokedTokens → RevokedTokens
  unfolding refresh logout
  after_call (refreshing call now token s) store = (refresh jwt hasher ttl call now token s store).1
  after_call (logging_out call now token) store = (logout jwt hasher ttl call now token store).1

  unfoldable pub after_calls : List TokenCall → RevokedTokens → RevokedTokens
  unfolding after_call
  after_calls [] store = store
  after_calls (c ∷ calls) store = after_calls calls (after_call c store)

  module _ (jti : String) (time now call : ℕ) (early : now < time) (long : time ≤ now + ttl) where
    rotate-Until :
        (claims : TokenClaims) (user : Result User) (store : RevokedTokens)
        → IsRevokedUntil jti time store
        → IsRevokedUntil jti time (rotate jwt hasher ttl call now claims user store).1
    unfolding rotate
    rotate-Until claims (err e) store h = h
    rotate-Until claims (ok user) store h =
        revoke-IsRevokedUntil jti time now store h early claims.jti ttl long

    refreshed-Until :
        (token : String) (s : Session) (store : RevokedTokens) (r : Result TokenClaims)
        → jwt.decode_refresh call token ≡ r
        → IsRevokedUntil jti time store
        → IsRevokedUntil jti time (refresh jwt hasher ttl call now token s store).1
    unfolding refresh
    refreshed-Until token s store (err e) d h = rw (refresh, d) h
    refreshed-Until token s store (ok claims) d h =
        rw (refresh_decoded call now token s store d)
          (elim (Bool-cases (is_revoked claims.jti now store).0) [
            | inl gone ↦ rw gone (is_revoked-IsRevokedUntil jti time now store h early claims.jti)
            | inr kept ↦ rw kept (
                rotate-Until claims _ _
                  (is_revoked-IsRevokedUntil jti time now store h early claims.jti))
          ])

    logged_out-Until :
        (token : String) (store : RevokedTokens) (r : Result TokenClaims)
        → jwt.decode_refresh call token ≡ r
        → IsRevokedUntil jti time store
        → IsRevokedUntil jti time (logout jwt hasher ttl call now token store).1
    unfolding logout
    logged_out-Until token store (err e) d h = rw (logout, d) h
    logged_out-Until token store (ok claims) d h =
        rw (logout, d) (revoke-IsRevokedUntil jti time now store h early claims.jti ttl long)

  -- The calls between `now` and `now + ttl`.
  abbrev pub IsWithin : ℕ → List TokenCall → Type 0
  IsWithin now calls = All (λ c. (now ≤ time_of c) × (time_of c < now + ttl)) calls

  after_calls-Until :
      (jti : String) (now : ℕ) (calls : List TokenCall) (store : RevokedTokens)
      → IsWithin now calls
      → IsRevokedUntil jti (now + ttl) store
      → IsRevokedUntil jti (now + ttl) (after_calls calls store)
  unfolding after_calls after_call
  after_calls-Until jti now [] store w h = h
  after_calls-Until jti now (refreshing call at token s ∷ calls) store w h =
      after_calls-Until jti now calls _ w.1 (
        refreshed-Until jti (now + ttl) at call w.0.1 (omega (arith, w.0.0)) token s store _ refl h)
  after_calls-Until jti now (logging_out call at token ∷ calls) store w h =
      after_calls-Until jti now calls _ w.1
        (logged_out-Until jti (now + ttl) at call w.0.1 (omega (arith, w.0.0)) token store _ refl h)

  -- A refresh token is exchanged once: when `refresh` has returned a pair for a token, each later call
  -- with a token of the same `jti` is refused and changes nothing, until the time at which the token
  -- expires, whatever other tokens are refreshed or logged out in between. The times of the calls
  -- are not before that of the first.
  pub refresh_once :
      (call now : ℕ) (token : String) (s : Session) (store : RevokedTokens) {claims : TokenClaims}
      {pair : TokenPair} (calls : List TokenCall) (later time : ℕ) (again : String) (t : Session)
      {same : TokenClaims}
      → jwt.decode_refresh call token ≡ ok claims
      → (refresh jwt hasher ttl call now token s store).0 ≡ ok pair
      → IsWithin now calls
      → jwt.decode_refresh later again ≡ ok same
      → same.jti ≡ claims.jti
      → time < now + ttl
      → refresh jwt hasher ttl later time again t
          (after_calls calls (refresh jwt hasher ttl call now token s store).1)
        ≡ (err revoked_token, after_calls calls (refresh jwt hasher ttl call now token s store).1)
  refresh_once call now token s store {claims} calls later time again t {same} d h w e j early =
      refresh_revoked later time again t _ e
        (rw j (
          after_calls-Until claims.jti now calls _ w
            (refresh-IsRevokedUntil call now token s store d h)))
        early
