-- ===== src/Identity/Owners.antt =====
-- Who owns an account, and which devices act for it, over any history of calls.
use open_social_protocol.Prelude.{
  ℕ, suc, ◌≤◌, ◌<◌, ◌≡◌, ◌⊎◌, ◌∙◌, inl, inr, refl, sym, ap, subst, true, false, Option, none, some,
  arith, length, some_eq, Bool-cases, Option-cases,
}
use open_social_protocol.Chain.{Bytes, Sdk, Env, ok, u32_mod, add32}
use open_social_protocol.Chain.Util.{value}
use open_social_protocol.Chain.Util.Concat.{concat_pair_injective}
use open_social_protocol.Chain.Util.Require.{require_address-ok}
use open_social_protocol.Identity.State.{IdentityRecord, DeviceRecord, State, fresh}
use open_social_protocol.Identity.Resolve.{device_key, resolve}
use open_social_protocol.Identity.Recovery.{execute_recovery}
use open_social_protocol.Identity.RecoveryCalls.{execute_recovery-Executed}
use open_social_protocol.Identity.Actors.{owner_call, resolve_accepts}
use open_social_protocol.Identity.Effects.{
  Step, Reach, here, next, OnIdentities, OnDevices, Recovers, on_identities, on_devices,
}

module _ ⦃sdk : Sdk⦄ where
  open sdk use {get, put, equal, get-put, get-empty, equal_iff}

  -- The record of a registered account after a call: as it was in its owner and its epoch, or recovered.
  pub record Successor (env : Env) (s t : State) (a : Bytes) (rec : IdentityRecord) : Type 0 where
    pub rec' : IdentityRecord
    pub stored : get t.identities a ≡ some rec'
    pub how :
        ((rec'.owner ≡ rec.owner) × (rec'.device_epoch ≡ rec.device_epoch))
        ⊎ Recovers env s a rec rec'

  -- A write to another account leaves this one.
  elsewhere :
      (env : Env) (s t : State) (a b : Bytes) (rec new : IdentityRecord)
      → get s.identities a ≡ some rec
      → t.identities ≡ put s.identities b new
      → equal b a ≡ false
      → Successor env s t a rec
  elsewhere env s t a b rec new e h other = record {
    rec' = rec;
    stored = rw (h, get-put, other) e;
    how = inl (refl, refl);
  }

  written :
      (s t : State) (a b : Bytes) (new : IdentityRecord)
      → t.identities ≡ put s.identities b new
      → equal b a ≡ true
      → get t.identities a ≡ some new
  written s t a b new h there = rw (h, get-put, there)

  on-Successor :
      (env : Env) (s t : State) (a : Bytes) (rec : IdentityRecord)
      → get s.identities a ≡ some rec
      → OnIdentities env s t
      → Successor env s t a rec
  on-Successor env s t a rec e (OnIdentities.same h) = record {
    rec' = rec;
    stored = rw h e;
    how = inl (refl, refl);
  }
  on-Successor env s t a rec e (OnIdentities.created b new unknown _ _ h) =
      elim (Bool-cases (equal b a)) [
        | inl there ↦ absurd (ground (arith, equal_iff b a))
        | inr other ↦ elsewhere env s t a b rec new e h other
      ]
  on-Successor env s t a rec e (OnIdentities.edited b old new known owner epoch h) =
      elim (Bool-cases (equal b a)) [
        | inl there ↦
            let same : old ≡ rec = ground (arith, equal_iff b a) in
            record {
              rec' = new;
              stored = written s t a b new h there;
              how = inl (
                owner ∙ ap (λ (r : IdentityRecord). r.owner) same,
                epoch ∙ ap (λ (r : IdentityRecord). r.device_epoch) same,
              );
            }
        | inr other ↦ elsewhere env s t a b rec new e h other
      ]
  on-Successor env s t a rec e (OnIdentities.recovered b old new known how h) =
      elim (Bool-cases (equal b a)) [
        | inl there ↦
            let same : old ≡ rec = ground (arith, equal_iff b a) in
            let here : b ≡ a = (equal_iff b a).0 there in
            record {
              rec' = new;
              stored = written s t a b new h there;
              how = inr (
                  subst (λ x. Recovers env s x rec new) here
                    (subst (λ r. Recovers env s b r new) same how));
            }
        | inr other ↦ elsewhere env s t a b rec new e h other
      ]

  -- Over one call, the owner and the epoch of a registered account stay as they are, or the account
  -- is recovered: the time of effect of its stored pending recovery is set and has come, the new owner
  -- is the one that was proposed, and the epoch moves on by one. The account stays registered.
  pub Step-owner :
      (env : Env) (s t : State) (a : Bytes) (rec : IdentityRecord)
      → get s.identities a ≡ some rec
      → Step env s t
      → Successor env s t a rec
  Step-owner env s t a rec e st = on-Successor env s t a rec e (on_identities env s t st)

  -- Every stored device belongs to a registered account and to an epoch that it has had, and an
  -- account has had at most one epoch for each call.
  pub record IsEpochal (n : ℕ) (s : State) : Type 0 where
    pub devices :
        (a d : Bytes) (dev : DeviceRecord)
        → length a ≡ 25
        → get s.devices (device_key a d) ≡ some dev
        → (rec : IdentityRecord) × (get s.identities a ≡ some rec)
          × (dev.device_epoch ≤ rec.device_epoch)
    pub few :
        (a : Bytes) (rec : IdentityRecord) → get s.identities a ≡ some rec → rec.device_epoch ≤ n

  fresh-IsEpochal : IsEpochal 0 fresh
  fresh-IsEpochal = record {
    devices = λ a d dev h e. cc (get-empty {V = DeviceRecord} (device_key a d), e);
    few = λ a rec e. ground (arith, get-empty {V = IdentityRecord} a);
  }

  -- An account that a call registers starts at epoch 0.
  new_epoch :
      (env : Env) (s t : State) (a : Bytes) (rec' : IdentityRecord)
      → get s.identities a ≡ none
      → get t.identities a ≡ some rec'
      → OnIdentities env s t
      → rec'.device_epoch ≡ 0
  new_epoch env s t a rec' e f (OnIdentities.same h) = cc (rw h at f)
  new_epoch env s t a rec' e f (OnIdentities.created b new unknown _ zero_epoch h) =
      ground (arith, get-put s.identities b new a, ap (λ m. get m a) h)
  new_epoch env s t a rec' e f (OnIdentities.edited b old new known owner epoch h) =
      ground (arith, get-put s.identities b new a, ap (λ m. get m a) h, equal_iff b a)
  new_epoch env s t a rec' e f (OnIdentities.recovered b old new known how h) =
      ground (arith, get-put s.identities b new a, ap (λ m. get m a) h, equal_iff b a)

  -- The epoch of a successor.
  epoch_of :
      (env : Env) (s t : State) (a : Bytes) (rec : IdentityRecord) (x : Successor env s t a rec)
      → (x.rec'.device_epoch ≡ rec.device_epoch) ⊎ (x.rec'.device_epoch ≡ add32 rec.device_epoch 1)
  epoch_of env s t a rec x = elim (x.how) [
    | inl same ↦ inl (same.1)
    | inr moved ↦ inr moved.new_epoch
  ]

  few-Step :
      (env : Env) (n : ℕ) (s t : State) (a : Bytes) (rec' : IdentityRecord)
      → IsEpochal n s
      → Step env s t
      → get t.identities a ≡ some rec'
      → rec'.device_epoch ≤ suc n
  few-Step env n s t a rec' v st e = elim (Option-cases (get s.identities a)) [
    | inl unknown ↦
        let start = new_epoch env s t a rec' unknown e (on_identities env s t st) in omega arith
    | inr (rec, known) ↦
        let x = Step-owner env s t a rec known st in
        let bound = v.few a rec known in
        let same : x.rec' ≡ rec' = some_eq (sym x.stored ∙ e) in
        let epoch = epoch_of env s t a rec x in
        let e' = ap (λ (r : IdentityRecord). r.device_epoch) same in omega arith
  ]

  -- A device of an epoch that the account had before the call is of one that it has had after it.
  still :
      (env : Env) (n : ℕ) (s t : State) (a : Bytes) (rec : IdentityRecord) (k : ℕ)
      → IsEpochal n s
      → suc n < u32_mod
      → Step env s t
      → get s.identities a ≡ some rec
      → k ≤ rec.device_epoch
      → (rec' : IdentityRecord) × (get t.identities a ≡ some rec') × (k ≤ rec'.device_epoch)
  still env n s t a rec k v m st known le =
      let x = Step-owner env s t a rec known st in
      let epoch = epoch_of env s t a rec x in
      let bound = v.few a rec known in (x.rec', x.stored, omega arith)

  devices-Step_on :
      (env : Env) (n : ℕ) (s t : State) (a d : Bytes) (dev : DeviceRecord)
      → IsEpochal n s
      → suc n < u32_mod
      → Step env s t
      → length a ≡ 25
      → get t.devices (device_key a d) ≡ some dev
      → OnDevices s t
      → (rec : IdentityRecord) × (get t.identities a ≡ some rec)
        × (dev.device_epoch ≤ rec.device_epoch)
  devices-Step_on env n s t a d dev v m st h e (OnDevices.same f) =
      let (rec, known, le) = v.devices a d dev h (rw f at e) in
      still env n s t a rec dev.device_epoch v m st known le
  devices-Step_on env n s t a d dev v m st h e (OnDevices.written b c rec new hb known from _ f) =
      elim (Bool-cases (equal (device_key b c) (device_key a d))) [
        | inr other ↦
            let (rec, known, le) = v.devices a d dev h (rw (f, get-put, other) at e) in
            still env n s t a rec dev.device_epoch v m st known le
        | inl there ↦
            let keys = (equal_iff (device_key b c) (device_key a d)).0 there in
            let here = concat_pair_injective b a c d (hb ∙ sym h) keys in
            let mine : get s.identities a ≡ some rec = rw (← here.0) known in
            let same : new ≡ dev = some_eq (rw (f, get-put, there) at e) in
            let le : dev.device_epoch ≤ rec.device_epoch = elim from [
              | inl current ↦ rw (← same) (omega arith)
              | inr (old, found, kept) ↦
                  let (r, stored, bound) = v.devices b c old hb found in
                  let one : r ≡ rec = some_eq (sym stored ∙ known) in
                  rw (← same) (omega (arith, ap (λ (z : IdentityRecord). z.device_epoch) one))
            ] in
            still env n s t a rec dev.device_epoch v m st mine le
      ]

  devices-Step :
      (env : Env) (n : ℕ) (s t : State) (a d : Bytes) (dev : DeviceRecord)
      → IsEpochal n s
      → suc n < u32_mod
      → Step env s t
      → length a ≡ 25
      → get t.devices (device_key a d) ≡ some dev
      → (rec : IdentityRecord) × (get t.identities a ≡ some rec)
        × (dev.device_epoch ≤ rec.device_epoch)
  devices-Step env n s t a d dev v m st h e =
      devices-Step_on env n s t a d dev v m st h e (on_devices env s t st)

  Reach-IsEpochal : {n : ℕ} {s : State} → Reach n s → n < u32_mod → IsEpochal n s
  Reach-IsEpochal here m = fresh-IsEpochal
  Reach-IsEpochal (next {n} {s} {t} env r st) m =
      let v = Reach-IsEpochal r (omega arith) in
      record {
        devices = λ a d dev h e. devices-Step env n s t a d dev v m st h e;
        few = λ a rec e. few-Step env n s t a rec v st e;
      }

  -- A recovery cuts off every device: after any history of fewer than 2^32 - 1 calls and a successful
  -- execute_recovery of an account, resolve refuses each device of that account, at any time and
  -- for any capability (a call that names no device, or the account itself, is the owner's).
  pub execute_recovery_revokes_devices :
      (n : ℕ) (s t : State) (env : Env) (account device : Option Bytes) (now capability : ℕ)
      → Reach n s
      → suc n < u32_mod
      → execute_recovery env account s ≡ ok t
      → owner_call (value account) device ≡ false
      → (resolve now t account device capability).ok ≡ false
  execute_recovery_revokes_devices n s t env account device now capability r m e other =
      let x = execute_recovery-Executed env account s t e in
      let v = Reach-IsEpochal r (omega arith) in
      let (ea, ha) = require_address-ok account "account" x.a x.address in
      elim (Bool-cases (resolve now t account device capability).ok) [
        | inr refused ↦ refused
        | inl accepted ↦
            let (_, (rec', known, how)) =
              (resolve_accepts now t account device capability).0 accepted in
            elim how [
              | inl mine ↦ absurd (cc (mine, other))
              | inr (dev, found, may) ↦
                  let k = device_key x.a (value device) in
                  let there : get s.devices k ≡ some dev = rw (x.devices, ← ea) at found in
                  let (rec, stored, le) = v.devices x.a (value device) dev ha there in
                  let old : rec ≡ x.rec = some_eq (sym stored ∙ x.known) in
                  let bound = v.few x.a x.rec x.known in
                  let new = rw (x.identities, ← ea, get-put, (equal_iff x.a x.a).1 refl) at known in
                  let epoch = ap (λ (z : IdentityRecord). z.device_epoch) (some_eq new) in
                  let old_epoch = ap (λ (z : IdentityRecord). z.device_epoch) old in
                  let current = may.current in absurd (omega arith)
            ]
      ]
