-- ===== src/Identity/Keys.antt =====
-- `register`, `update_profile` and `rotate_encryption_key`.
use open_social_protocol.Prelude.{ℕ, Option, none, some, Bool, true, false, [], ◌∷◌, leb, ltb}
use open_social_protocol.Chain.{
  Bytes, Text, Sdk, Env, Result, ok, ◌>>=◌, ◌>>◌, require, require_some,
}
use open_social_protocol.Chain.Util.{require_address}
use open_social_protocol.Chain.Actor
use open_social_protocol.Chain.Actor.{reason_or}
use open_social_protocol.Identity.State.{
  protocol_version, max_profile_uri_chars, IdentityRecord, registered, profile_updated, key_rotated,
  State, emit,
}
use open_social_protocol.Identity.Resolve.{
  load_identity, require_owner, optional_hash, optional_string, require_encryption_key, resolve,
}

abbrev is_none {ℓ} : {A : Type ℓ} → Option A → Bool
is_none none = true
is_none (some a) = false

-- The record that `register` stores.
abbrev pub new_identity : ℕ → Bytes → Bytes → ℕ → Option Bytes → Option Text → IdentityRecord
new_identity now a key key_version hash uri = record {
  account = a;
  owner = a;
  encryption_key = key;
  key_version = key_version;
  profile_hash = hash;
  profile_uri = uri;
  version = protocol_version;
  device_epoch = 0;
  registered_at = now;
  updated_at = now;
}

module _ ⦃sdk : Sdk⦄ where
  open sdk use {get, put}

  -- Identity.register
  unfoldable pub register :
      Env → Option Bytes → Option Bytes → ℕ → Option Bytes → Option Text → State → Result State
  register env account encryption_key key_version profile_hash profile_uri s = do
    a ← require_address account "account"
    require (env.authorized a) "authorization failed"
    require (is_none (get s.identities a)) "identity already registered"
    key ← require_encryption_key encryption_key
    require (leb 1 key_version) "key_version must be >= 1"
    hash ← optional_hash profile_hash "profile_hash"
    uri ← optional_string profile_uri max_profile_uri_chars "profile_uri"
    ok (
        emit (registered a key key_version hash uri protocol_version env.now) (a ∷ []) (record s {
          identities = put s.identities a (new_identity env.now a key key_version hash uri);
        }))

  -- Identity.update_profile
  unfoldable pub update_profile :
      Env → Option Bytes → Option Bytes → Option Text → Option Bytes → State → Result State
  update_profile env account profile_hash profile_uri device s = do
    a ← require_address account "account"
    let res = resolve env.now s (some a) device Actor.profile
    require res.ok (reason_or res.reason)
    signer ← require_some res.signer "unexpected null"
    require (env.authorized signer) "authorization failed"
    rec ← load_identity s a
    hash ← optional_hash profile_hash "profile_hash"
    uri ← optional_string profile_uri max_profile_uri_chars "profile_uri"
    let rec' = record rec { profile_hash = hash; profile_uri = uri; updated_at = env.now }
    ok (
        emit (profile_updated a hash uri env.now) (a ∷ [])
          (record s { identities = put s.identities a rec' }))

  -- Identity.rotate_encryption_key
  unfoldable pub rotate_encryption_key :
      Env → Option Bytes → Option Bytes → ℕ → State → Result State
  rotate_encryption_key env account encryption_key key_version s = do
    a ← require_address account "account"
    rec ← load_identity s a
    owner ← require_owner env rec
    key ← require_encryption_key encryption_key
    require (ltb rec.key_version key_version) "key_version must increase"
    let rec' = record rec { encryption_key = key; key_version = key_version; updated_at = env.now }
    ok (
        emit (key_rotated a rec.key_version key key_version env.now) (a ∷ [])
          (record s { identities = put s.identities a rec' }))
