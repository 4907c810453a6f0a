-- ===== src/Sponsorship/Grants.antt =====
-- `set_user_grant`, `revoke_user_grant` and `get_user_grant`.
use open_social_protocol.Prelude.{
  ℕ, Option, none, false, true, [], ◌∷◌, ◌||◌, not, ◌==◌, leb, ltb, if◌then◌else◌,
}
use open_social_protocol.Chain.{Bytes, Sdk, Env, Result, ok, ◌>>=◌, ◌>>◌, require, require_some}
use open_social_protocol.Chain.Util.{is_empty, value, concat, require_address}
use open_social_protocol.Sponsorship.State.{
  UserGrant, user_grant_set, user_grant_revoked, State, emit,
}
use open_social_protocol.Sponsorship.Sponsors.{require_sponsor_record}

-- Sponsorship.grantKey
abbrev pub grant_key : Bytes → Bytes → Bytes
grant_key sponsor user = concat (sponsor ∷ user ∷ [])

module _ ⦃sdk : Sdk⦄ where
  open sdk use {get, put, equal}

  -- Sponsorship.set_user_grant
  unfoldable pub set_user_grant : Env → Option Bytes → Option Bytes → ℕ → ℕ → State → Result State
  set_user_grant env sponsor user daily_ops expires_at s = do
    p ← require_address sponsor "sponsor"
    u ← require_address user "user"
    require (not (equal p u)) "user must differ from sponsor"
    require (env.authorized p) "authorization failed"
    require (leb 1 daily_ops) "daily_ops must be at least 1"
    require (expires_at == 0 || ltb env.now expires_at) "expires_at must be 0 or in the future"
    rec ← require_sponsor_record s p
    require rec.active "sponsor inactive"
    let grant : UserGrant = record {
      sponsor = p;
      user = u;
      daily_ops = daily_ops;
      expires_at = expires_at;
      revoked = false;
      updated_at = env.now;
    }
    ok (
        emit (user_grant_set p u daily_ops expires_at env.now) (p ∷ u ∷ [])
          (record s { grants = put s.grants (grant_key p u) grant }))

  -- Sponsorship.revoke_user_grant
  unfoldable pub revoke_user_grant : Env → Option Bytes → Option Bytes → State → Result State
  revoke_user_grant env sponsor user s = do
    p ← require_address sponsor "sponsor"
    u ← require_address user "user"
    require (env.authorized p) "authorization failed"
    grant ← require_some (get s.grants (grant_key p u)) "grant not found"
    ok (
        emit (user_grant_revoked p u env.now) (p ∷ u ∷ []) (record s {
          grants =
              put s.grants (grant_key p u) (record grant { revoked = true; updated_at = env.now });
        }))

  -- Sponsorship.get_user_grant
  unfoldable pub get_user_grant : Option Bytes → Option Bytes → State → Option UserGrant
  get_user_grant sponsor user s =
      if is_empty sponsor || is_empty user
      then none
      else get s.grants (grant_key (value sponsor) (value user))
