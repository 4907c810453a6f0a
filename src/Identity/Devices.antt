-- ===== src/Identity/Devices.antt =====
-- `authorize_device` and `revoke_device`.
use open_social_protocol.Prelude.{ℕ, Option, false, true, [], ◌∷◌, not, ◌==◌, leb, ltb}
use open_social_protocol.Chain.{
  Bytes, Text, Sdk, Env, Result, ok, ◌>>=◌, ◌>>◌, require, require_some, add64,
}
use open_social_protocol.Chain.Util.{require_address}
use open_social_protocol.Identity.State.{
  max_capabilities, max_device_lifetime_ms, max_label_chars, DeviceRecord, device_authorized,
  device_revoked, State, emit,
}
use open_social_protocol.Identity.Resolve.{
  load_identity, require_owner, optional_string, device_key,
}

module _ ⦃sdk : Sdk⦄ where
  open sdk use {get, put, equal}

  -- Identity.authorize_device
  unfoldable pub authorize_device :
      Env → Option Bytes → Option Bytes → ℕ → ℕ → Option Text → State → Result State
  authorize_device env account device capabilities expires_at label s = do
    a ← require_address account "account"
    rec ← load_identity s a
    owner ← require_owner env rec
    d ← require_address device "device"
    require (not (equal d a)) "device must differ from account"
    require (not (capabilities == 0)) "capabilities must not be empty"
    require (leb capabilities max_capabilities) "unknown capability bits"
    require (ltb env.now expires_at) "expires_at must be in the future"
    require (leb expires_at (add64 env.now max_device_lifetime_ms))
        "expires_at too far in the future"
    text ← optional_string label max_label_chars "label"
    let dev : DeviceRecord = record {
      account = a;
      device = d;
      capabilities = capabilities;
      expires_at = expires_at;
      device_epoch = rec.device_epoch;
      revoked = false;
      label = text;
      authorized_at = env.now;
    }
    ok (
        emit (device_authorized a d capabilities expires_at text rec.device_epoch env.now)
          (a ∷ d ∷ []) (record s { devices = put s.devices (device_key a d) dev }))

  -- Identity.revoke_device
  unfoldable pub revoke_device : Env → Option Bytes → Option Bytes → State → Result State
  revoke_device env account device s = do
    a ← require_address account "account"
    rec ← load_identity s a
    owner ← require_owner env rec
    d ← require_address device "device"
    dev ← require_some (get s.devices (device_key a d)) "unknown device"
    ok (
        emit (device_revoked a d env.now) (a ∷ d ∷ [])
          (record s { devices = put s.devices (device_key a d) (record dev { revoked = true }) }))
