-- ===== src/Identity/Actors.antt =====
-- Who may act for an account: the exact condition under which `resolve` accepts, and its signer.
use open_social_protocol.Prelude.{
  ℕ, ◌<◌, ◌≡◌, ◌≢◌, ◌↔◌, ◌⊎◌, inl, inr, Bool, true, false, Option, none, some, ◌||◌, arith, bit_and,
  Bool-cases, Option-cases, if◌then◌else◌,
}
use open_social_protocol.Chain.{Bytes, Sdk}
use open_social_protocol.Chain.Util.{is_empty, value}
use open_social_protocol.Identity.State.{IdentityRecord, DeviceRecord, State}
use open_social_protocol.Identity.Resolve.{resolve, resolve_for, resolve_device, device_key}

-- A stored device that may use the capability at this time.
pub record MayAct (now : ℕ) (rec : IdentityRecord) (capability : ℕ) (dev : DeviceRecord)
    : Type 0 where
  pub live : dev.revoked ≡ false
  pub current : dev.device_epoch ≡ rec.device_epoch
  pub unexpired : now < dev.expires_at
  pub granted : (capability ≡ 0) ⊎ (bit_and dev.capabilities capability ≢ 0)

resolve_device-MayAct :
    (now : ℕ) (rec : IdentityRecord) (device : Bytes) (capability : ℕ) (dev : DeviceRecord)
    → (resolve_device now rec device capability (some dev)).ok ≡ true
    → MayAct now rec capability dev
unfolding resolve_device
resolve_device-MayAct now rec device capability dev h = ground arith

MayAct-resolve_device :
    (now : ℕ) (rec : IdentityRecord) (device : Bytes) (capability : ℕ) (dev : DeviceRecord)
    → MayAct now rec capability dev
    → (resolve_device now rec device capability (some dev)).ok ≡ true
unfolding resolve_device
MayAct-resolve_device now rec device capability dev h = ground arith

resolve_device-none :
    (now : ℕ) (rec : IdentityRecord) (device : Bytes) (capability : ℕ)
    → ¬ ((resolve_device now rec device capability none).ok ≡ true)
unfolding resolve_device
resolve_device-none now rec device capability h = cc

module _ ⦃sdk : Sdk⦄ where
  open sdk use {get, put, equal}

  -- The call names no device, or the account as its own device: the owner signs.
  abbrev pub owner_call : Bytes → Option Bytes → Bool
  owner_call account device = is_empty device || equal (value device) account

  -- The account is registered, and its owner signs or a stored device may act.
  abbrev pub Accepted : ℕ → State → Option Bytes → Option Bytes → ℕ → Type 0
  Accepted now s account device capability =
      (is_empty account ≡ false)
      × ((rec : IdentityRecord) × (get s.identities (value account) ≡ some rec)
          × ((owner_call (value account) device ≡ true)
              ⊎ ((dev : DeviceRecord) × (get s.devices (device_key (value account) (value device))
                    ≡ some dev)
                  × MayAct now rec capability dev)))

  device_only :
      (now : ℕ) (s : State) (account : Bytes) (device : Option Bytes) (capability : ℕ)
      (rec : IdentityRecord)
      → (resolve_for now s account device capability rec).ok ≡ true
      → (owner_call account device ≡ true)
        ⊎ ((dev : DeviceRecord) × (get s.devices (device_key account (value device)) ≡ some dev)
            × MayAct now rec capability dev)
  unfolding resolve_for
  device_only now s account device capability rec h =
      elim (Bool-cases (owner_call account device)) [
        | inl mine ↦ inl mine
        | inr other ↦ elim (Option-cases (get s.devices (device_key account (value device)))) [
          | inl unknown ↦
              absurd
                (resolve_device-none now rec (value device) capability (rw (other, unknown) at h))
          | inr (dev, found) ↦ inr (
            dev,
            found,
            resolve_device-MayAct now rec (value device) capability dev (rw (other, found) at h),
          )
        ]
      ]

  resolve_accepts_only :
      (now : ℕ) (s : State) (account device : Option Bytes) (capability : ℕ)
      → (resolve now s account device capability).ok ≡ true
      → Accepted now s account device capability
  unfolding resolve resolve_for
  resolve_accepts_only now s account device capability h = elim (Bool-cases (is_empty account)) [
    | inl missing ↦ cc (rw missing at h)
    | inr present ↦ elim (Option-cases (get s.identities (value account))) [
      | inl unknown ↦ cc (rw (present, unknown) at h)
      | inr (rec, found) ↦ (
        present,
        (
          rec,
          found,
          device_only now s (value account) device capability rec (rw (present, found) at h),
        ),
      )
    ]
  ]

  -- `resolve` accepts exactly when the account is registered and either the call is the owner's, or the
  -- device is stored for this account, is not revoked, belongs to the account's current epoch, has
  -- not expired, and was granted the capability (capability 0 asks for none).
  pub resolve_accepts :
      (now : ℕ) (s : State) (account device : Option Bytes) (capability : ℕ)
      → ((resolve now s account device capability).ok ≡ true)
        ↔ Accepted now s account device capability
  unfolding resolve resolve_for
  resolve_accepts now s account device capability = (
    λ h. resolve_accepts_only now s account device capability h,
    λ h. elim (h.1.2) [
      | inl mine ↦ ground arith
      | inr (dev, found, may) ↦
          ground (arith, MayAct-resolve_device now h.1.0 (value device) capability dev may)
    ],
  )

  -- When `resolve` accepts, the signer is the current owner for a call that names no device or
  -- the account itself, and the named device otherwise.
  pub resolve_signer :
      (now : ℕ) (s : State) (account device : Option Bytes) (capability : ℕ) (rec : IdentityRecord)
      → get s.identities (value account) ≡ some rec
      → (resolve now s account device capability).ok ≡ true
      → (resolve now s account device capability).signer
        ≡ some (if owner_call (value account) device then rec.owner else value device)
  unfolding resolve resolve_for resolve_device
  resolve_signer now s account device capability rec e h = ground arith

  -- The account is registered, and the signer is its current owner, where the call names no device or
  -- the account itself, or else the named device, which is stored for it and may act.
  abbrev pub AcceptedAs : ℕ → State → Option Bytes → Option Bytes → ℕ → Bytes → Type 0
  AcceptedAs now s account device capability signer =
      (is_empty account ≡ false)
      × ((rec : IdentityRecord) × (get s.identities (value account) ≡ some rec)
          × (((owner_call (value account) device ≡ true) × (signer ≡ rec.owner))
              ⊎ ((owner_call (value account) device ≡ false)
                  × (signer ≡ value device)
                  × ((dev : DeviceRecord) × (get s.devices
                          (device_key (value account) (value device))
                        ≡ some dev)
                      × MayAct now rec capability dev))))
