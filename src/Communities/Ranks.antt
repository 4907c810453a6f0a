-- ===== src/Communities/Ranks.antt =====
-- The roles that a contract stores, after any history of calls.
use open_social_protocol.Prelude.{
  ℕ, ◌≡◌, ◌⊎◌, ◌∙◌, ◌≤◌, inl, inr, sym, ap, true, false, some, [], ◌++◌, leb, ◌==◌, length,
  length-append, arith, Bool-cases,
}
use open_social_protocol.Chain.{Bytes, Sdk}
use open_social_protocol.Chain.Util.{value}
use open_social_protocol.Chain.Util.Concat.{concat_pair_injective}
use open_social_protocol.Chain.Lookup.{put_at, remove_at, some_injective}
use open_social_protocol.Communities.State.{
  role_none, role_owner, role_max_value, RoleRecord, State, fresh,
}
use open_social_protocol.Communities.Roles.{role_key}
use open_social_protocol.Communities.Methods.{put_role}
use open_social_protocol.Communities.Calls.{
  set_identity_contract-SameMaps, set_label-SameMaps, create_community-NewCommunity,
  set_role-RoleSet, set_policy-PolicySet, propose_owner_transfer-Proposed,
  cancel_owner_transfer-Cancelled, execute_owner_transfer-Transferred,
}
use open_social_protocol.Communities.Ownership.{
  sets_identity, creates, sets_role, sets_policy, sets_label, proposes, cancels, executes, Reach,
  here, next,
}

-- Keys of addresses are different for different communities or accounts, though the ids of communities
-- have different lengths.
pub role_key_injective :
    (a b x y : Bytes) → length x ≡ length y → role_key a x ≡ role_key b y → (a ≡ b) × (x ≡ y)
role_key_injective a b x y h e =
    concat_pair_injective a b x y
      (omega (
        arith,
        length-append a (x ++ []),
        length-append b (y ++ []),
        length-append x [],
        length-append y [],
        ap length e,
      ))
      e

module _ ⦃sdk : Sdk⦄ where
  open sdk use {get, equal, equal_iff, get-empty}

  -- The roles of other accounts are the same after a write of one.
  pub put_role_elsewhere :
      (m : sdk.Map RoleRecord) (a x b y : Bytes) (rec : RoleRecord)
      → length x ≡ length y
      → ((a ≡ b) × (x ≡ y))
        ⊎ (get (put_role m (role_key a x) rec) (role_key b y) ≡ get m (role_key b y))
  put_role_elsewhere m a x b y rec l = elim (Bool-cases (rec.role == role_none)) [
    | inl gone ↦ elim (remove_at m (role_key a x) (role_key b y)) [
      | inl (same, _) ↦ inl (role_key_injective a b x y l same)
      | inr (_, other) ↦ inr (rw gone other)
    ]
    | inr stays ↦ elim (put_at m (role_key a x) (role_key b y) rec) [
      | inl (same, _) ↦ inl (role_key_injective a b x y l same)
      | inr (_, other) ↦ inr (rw stays other)
    ]
  ]

  -- A role that the contract stores is of a kind that may be stored.
  pub record Storable (rec : RoleRecord) : Type 0 where
    pub in_range : rec.role ≤ role_max_value
    pub not_owner : (rec.role == role_owner) ≡ false

  put_role-Storable :
      (m : sdk.Map RoleRecord) (key k : Bytes) (new rec : RoleRecord)
      → Storable new
      → get (put_role m key new) k ≡ some rec
      → (get m k ≡ some rec) ⊎ Storable rec
  put_role-Storable m key k new rec v h = elim (Bool-cases (new.role == role_none)) [
    | inl gone ↦ elim (remove_at m key k) [
      | inl (_, now) ↦ ground (arith, rw gone at h)
      | inr (_, other) ↦ inl (sym other ∙ (rw gone at h))
    ]
    | inr stays ↦ elim (put_at m key k new) [
      | inl (_, now) ↦ inr (rw (some_injective (sym now ∙ (rw stays at h))) at v)
      | inr (_, other) ↦ inl (sym other ∙ (rw stays at h))
    ]
  ]

  storable : (role max : ℕ) → leb role max ≡ true → role ≤ max
  storable role max h = ground arith

  -- After any history, every stored role is one of the seven, and none is the owner's.
  pub Reach-Storable :
      {s : State} (k : Bytes) (rec : RoleRecord)
      → Reach fresh s
      → get s.roles k ≡ some rec
      → Storable rec
  Reach-Storable k rec here h = ground (arith, get-empty {V = RoleRecord} k)
  Reach-Storable k rec (next {t = s} {u = t} env r (sets_identity address e)) h =
      Reach-Storable k rec r (rw ((set_identity_contract-SameMaps env address s t e).roles) at h)
  Reach-Storable k rec (next {t = s} {u = t} env r (creates args e)) h =
      Reach-Storable k rec r (rw ((create_community-NewCommunity env args s t e).roles) at h)
  Reach-Storable k rec (next {t = s} {u = t} env r (sets_role args e)) h =
      let x = set_role-RoleSet env args s t e in
      elim (put_role-Storable s.roles (role_key x.id x.subject) k _ rec
        (record {
          in_range = storable args.role role_max_value x.in_range;
          not_owner = x.not_ownership;
        })
        (rw x.roles at h)) [ inl before ↦ Reach-Storable k rec r before | inr now ↦ now ]
  Reach-Storable k rec
        (next {t = s} {u = t} env r (sets_policy community_id actor hash uri device e)) h =
      Reach-Storable k rec r
        (rw ((set_policy-PolicySet env community_id actor hash uri device s t e).roles) at h)
  Reach-Storable k rec
        (next {t = s} {u = t} env r (sets_label community_id actor post label reason device e)) h =
      Reach-Storable k rec r
        (rw ((set_label-SameMaps env community_id actor post label reason device s t e).roles) at h)
  Reach-Storable k rec (next {t = s} {u = t} env r (proposes community_id owner new_owner e)) h =
      Reach-Storable k rec r
        (rw ((propose_owner_transfer-Proposed env community_id owner new_owner s t e).roles) at h)
  Reach-Storable k rec (next {t = s} {u = t} env r (cancels community_id owner e)) h =
      Reach-Storable k rec r
        (rw ((cancel_owner_transfer-Cancelled env community_id owner s t e).roles) at h)
  Reach-Storable k rec (next {t = s} {u = t} env r (executes community_id e)) h =
      let x = execute_owner_transfer-Transferred env community_id s t e in
      elim (remove_at s.roles (role_key x.id (value x.old.pending_owner)) k) [
        | inl (_, gone) ↦ ground (arith, rw x.roles at h)
        | inr (_, other) ↦ Reach-Storable k rec r (sym other ∙ (rw x.roles at h))
      ]
