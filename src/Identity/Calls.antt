-- ===== src/Identity/Calls.antt =====
-- What a successful call of each method has found, and what it writes.
use open_social_protocol.Prelude.{ℕ, ◌<◌, ◌≡◌, true, false, Option, none, some, arith}
use open_social_protocol.Chain.{Bytes, Text, Sdk, Env, ok}
use open_social_protocol.Chain.Util.{require_address}
use open_social_protocol.Identity.State.{
  max_profile_uri_chars, max_label_chars, IdentityRecord, DeviceRecord, State,
}
use open_social_protocol.Identity.Resolve.{
  device_key, require_encryption_key, optional_hash, optional_string, load_identity,
}
use open_social_protocol.Identity.Keys.{
  new_identity, register, update_profile, rotate_encryption_key,
}
use open_social_protocol.Identity.Devices.{authorize_device, revoke_device}

module _ ⦃sdk : Sdk⦄ where
  open sdk use {get, put, equal}

  pub record Registered (env : Env) (account key : Option Bytes) (version : ℕ) (hash : Option Bytes)
      (uri : Option Text) (s t : State) : Type 0 where
    pub a : Bytes
    pub k : Bytes
    pub h : Option Bytes
    pub u : Option Text
    pub address : require_address account "account" ≡ ok a
    pub unknown : get s.identities a ≡ none
    pub key_ok : require_encryption_key key ≡ ok k
    pub hash_ok : optional_hash hash "profile_hash" ≡ ok h
    pub uri_ok : optional_string uri max_profile_uri_chars "profile_uri" ≡ ok u
    pub identities : t.identities ≡ put s.identities a (new_identity env.now a k version h u)
    pub devices : t.devices ≡ s.devices
    pub recovery : t.recovery ≡ s.recovery

  pub register-Registered :
      (env : Env) (account key : Option Bytes) (version : ℕ) (hash : Option Bytes)
      (uri : Option Text) (s t : State)
      → register env account key version hash uri s ≡ ok t
      → Registered env account key version hash uri s t
  unfolding register
  register-Registered env account key version hash uri s t h = ground arith

  pub record ProfileUpdated (env : Env) (account hash : Option Bytes) (uri : Option Text)
      (s t : State) : Type 0 where
    pub a : Bytes
    pub rec : IdentityRecord
    pub h : Option Bytes
    pub u : Option Text
    pub address : require_address account "account" ≡ ok a
    pub known : get s.identities a ≡ some rec
    pub hash_ok : optional_hash hash "profile_hash" ≡ ok h
    pub uri_ok : optional_string uri max_profile_uri_chars "profile_uri" ≡ ok u
    pub identities :
        t.identities
        ≡ put s.identities a
            (record rec { profile_hash = h; profile_uri = u; updated_at = env.now })
    pub devices : t.devices ≡ s.devices
    pub recovery : t.recovery ≡ s.recovery

  pub update_profile-ProfileUpdated :
      (env : Env) (account hash : Option Bytes) (uri : Option Text) (device : Option Bytes)
      (s t : State)
      → update_profile env account hash uri device s ≡ ok t
      → ProfileUpdated env account hash uri s t
  unfolding update_profile load_identity
  update_profile-ProfileUpdated env account hash uri device s t h = ground arith

  pub record Rotated (env : Env) (account key : Option Bytes) (version : ℕ) (s t : State)
      : Type 0 where
    pub a : Bytes
    pub rec : IdentityRecord
    pub k : Bytes
    pub address : require_address account "account" ≡ ok a
    pub known : get s.identities a ≡ some rec
    pub key_ok : require_encryption_key key ≡ ok k
    pub newer : rec.key_version < version
    pub identities :
        t.identities
        ≡ put s.identities a
            (record rec { encryption_key = k; key_version = version; updated_at = env.now })
    pub devices : t.devices ≡ s.devices
    pub recovery : t.recovery ≡ s.recovery

  pub rotate_encryption_key-Rotated :
      (env : Env) (account key : Option Bytes) (version : ℕ) (s t : State)
      → rotate_encryption_key env account key version s ≡ ok t
      → Rotated env account key version s t
  unfolding rotate_encryption_key load_identity
  rotate_encryption_key-Rotated env account key version s t h = ground arith

  pub record Authorized (env : Env) (account device : Option Bytes) (capabilities expires_at : ℕ)
      (label : Option Text) (s t : State) : Type 0 where
    pub a : Bytes
    pub d : Bytes
    pub rec : IdentityRecord
    pub text : Option Text
    pub address : require_address account "account" ≡ ok a
    pub device_address : require_address device "device" ≡ ok d
    pub known : get s.identities a ≡ some rec
    pub label_ok : optional_string label max_label_chars "label" ≡ ok text
    pub devices :
        t.devices
        ≡ put s.devices (device_key a d) (record {
          account = a;
          device = d;
          capabilities = capabilities;
          expires_at = expires_at;
          device_epoch = rec.device_epoch;
          revoked = false;
          label = text;
          authorized_at = env.now;
        })
    pub identities : t.identities ≡ s.identities
    pub recovery : t.recovery ≡ s.recovery

  pub authorize_device-Authorized :
      (env : Env) (account device : Option Bytes) (capabilities expires_at : ℕ)
      (label : Option Text) (s t : State)
      → authorize_device env account device capabilities expires_at label s ≡ ok t
      → Authorized env account device capabilities expires_at label s t
  unfolding authorize_device load_identity
  authorize_device-Authorized env account device capabilities expires_at label s t h = ground arith

  pub record Revoked (env : Env) (account device : Option Bytes) (s t : State) : Type 0 where
    pub a : Bytes
    pub d : Bytes
    pub rec : IdentityRecord
    pub dev : DeviceRecord
    pub address : require_address account "account" ≡ ok a
    pub device_address : require_address device "device" ≡ ok d
    pub known : get s.identities a ≡ some rec
    pub found : get s.devices (device_key a d) ≡ some dev
    pub devices : t.devices ≡ put s.devices (device_key a d) (record dev { revoked = true })
    pub identities : t.identities ≡ s.identities
    pub recovery : t.recovery ≡ s.recovery

  pub revoke_device-Revoked :
      (env : Env) (account device : Option Bytes) (s t : State)
      → revoke_device env account device s ≡ ok t
      → Revoked env account device s t
  unfolding revoke_device load_identity
  revoke_device-Revoked env account device s t h = ground arith
