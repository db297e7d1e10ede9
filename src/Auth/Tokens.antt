-- ===== src/Auth/Tokens.antt =====
-- app/auth/tokens.py: `InMemoryRefreshTokenStore`. A time is the reading of the monotonic clock in
-- the call, in whole seconds.
use vyapar_ai.Prelude.{
  ℕ, ◌+◌, String, Bool, true, false, not, Option, none, some, ◌∷◌, leb, str_eq, if◌then◌else◌,
}
use vyapar_ai.Common.Dict.{Dict, lookup}
use vyapar_ai.Models.Rows.{select}

-- The dictionary `_revoked`: each `jti` with the time at which it expires.
abbrev pub RevokedTokens : Type 0
RevokedTokens = Dict ℕ

unfoldable pub purge : ℕ → RevokedTokens → RevokedTokens
unfolding select
purge now = select (λ (entry : String × ℕ). not (leb entry.1 now))

-- `del self._revoked[jti]`
unfoldable pub remove : String → RevokedTokens → RevokedTokens
unfolding select
remove jti = select (λ (entry : String × ℕ). not (str_eq entry.0 jti))

-- `self._revoked[jti] = ...`, the entries that are there before replaced
unfoldable pub revoke : String → ℕ → ℕ → RevokedTokens → RevokedTokens
unfolding purge remove
revoke jti ttl_seconds now revoked = (jti, now + ttl_seconds) ∷ remove jti (purge now revoked)

-- `is_revoked`, with what the dictionary has for the token; an entry that has expired is deleted.
unfoldable pub check_entry : String → ℕ → RevokedTokens → Option ℕ → Bool × RevokedTokens
unfolding remove
check_entry jti now revoked none = (false, revoked)
check_entry jti now revoked (some exp) =
    if leb exp now then (false, remove jti revoked) else (true, revoked)

-- What `is_revoked` returns, and the store that it leaves.
unfoldable pub is_revoked : String → ℕ → RevokedTokens → Bool × RevokedTokens
unfolding lookup check_entry
is_revoked jti now revoked = check_entry jti now revoked (lookup jti revoked)
