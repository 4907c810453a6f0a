-- ===== src/Sponsorship/Authority.antt =====
-- Who may change a sponsor record and a grant.
use open_social_protocol.Prelude.{
  ℕ, ◌≡◌, inl, inr, refl, sym, ◌∙◌, true, false, Option, some, arith, length, Bool-cases,
}
use open_social_protocol.Chain.{Bytes, Text, Sdk, Env, ok}
use open_social_protocol.Chain.Util.{require_address, require_string}
use open_social_protocol.Chain.Util.Require.{require_address-ok}
use open_social_protocol.Chain.Util.Concat.{concat_pair_injective}
use open_social_protocol.Sponsorship.State.{max_policy_uri_length, SponsorRecord, UserGrant, State}
use open_social_protocol.Sponsorship.Sponsors.{
  SetSponsor, set_sponsor, deactivate_sponsor, require_sponsor_record, validate_endpoint,
  registered_at_or,
}
use open_social_protocol.Sponsorship.Grants.{grant_key, set_user_grant, revoke_user_grant}

module _ ⦃sdk : Sdk⦄ where
  open sdk use {get, put, equal, get-put, equal_iff}

  -- One successful call of a method that writes.
  pub data Step (env : Env) (s t : State) : Type 0 where
    sets : (args : SetSponsor) → set_sponsor env args s ≡ ok t → Step env s t
    deactivates : (sponsor : Option Bytes) → deactivate_sponsor env sponsor s ≡ ok t → Step env s t
    grants :
        (sponsor user : Option Bytes) (daily_ops expires_at : ℕ)
        → set_user_grant env sponsor user daily_ops expires_at s ≡ ok t
        → Step env s t
    revokes :
        (sponsor user : Option Bytes) → revoke_user_grant env sponsor user s ≡ ok t → Step env s t

  set_sponsor-authorized :
      (env : Env) (args : SetSponsor) (s t : State)
      → set_sponsor env args s ≡ ok t
      → (a : Bytes) × (endpoint : Text) × (uri : Text) × (require_address args.sponsor "sponsor"
          ≡ ok a)
        × (validate_endpoint args.endpoint ≡ ok endpoint)
        × (require_string args.policy_uri max_policy_uri_length "policy_uri" ≡ ok uri)
        × (env.authorized a ≡ true)
        × (t.grants ≡ s.grants)
        × (t.sponsors
            ≡ put s.sponsors a (record {
              sponsor = a;
              endpoint = endpoint;
              policy_uri = uri;
              policy_version = args.policy_version;
              allowed = args.allowed;
              max_rc_per_op = args.max_rc_per_op;
              max_ops_per_user_per_day = args.max_ops_per_user_per_day;
              bytes_per_op = args.bytes_per_op;
              active = args.active;
              registered_at = registered_at_or env.now (get s.sponsors a);
              updated_at = env.now;
            }))
  unfolding set_sponsor
  set_sponsor-authorized env args s t h = ground arith

  deactivate_sponsor-authorized :
      (env : Env) (sponsor : Option Bytes) (s t : State)
      → deactivate_sponsor env sponsor s ≡ ok t
      → (a : Bytes) × (rec : SponsorRecord) × (require_address sponsor "sponsor" ≡ ok a)
        × (require_sponsor_record s a ≡ ok rec)
        × (env.authorized a ≡ true)
        × (t.grants ≡ s.grants)
        × (t.sponsors ≡ put s.sponsors a (record rec { active = false; updated_at = env.now }))
  unfolding deactivate_sponsor
  deactivate_sponsor-authorized env sponsor s t h = ground arith

  set_user_grant-authorized :
      (env : Env) (sponsor user : Option Bytes) (daily_ops expires_at : ℕ) (s t : State)
      → set_user_grant env sponsor user daily_ops expires_at s ≡ ok t
      → (p : Bytes) × (u : Bytes) × (rec : SponsorRecord) × (require_address sponsor "sponsor"
          ≡ ok p)
        × (require_address user "user" ≡ ok u)
        × (get s.sponsors p ≡ some rec)
        × (rec.active ≡ true)
        × (env.authorized p ≡ true)
        × (t.sponsors ≡ s.sponsors)
        × (t.grants
            ≡ put s.grants (grant_key p u) (record {
              sponsor = p;
              user = u;
              daily_ops = daily_ops;
              expires_at = expires_at;
              revoked = false;
              updated_at = env.now;
            }))
  unfolding set_user_grant require_sponsor_record
  set_user_grant-authorized env sponsor user daily_ops expires_at s t h = ground arith

  revoke_user_grant-authorized :
      (env : Env) (sponsor user : Option Bytes) (s t : State)
      → revoke_user_grant env sponsor user s ≡ ok t
      → (p : Bytes) × (u : Bytes) × (grant : UserGrant) × (require_address sponsor "sponsor" ≡ ok p)
        × (require_address user "user" ≡ ok u)
        × (get s.grants (grant_key p u) ≡ some grant)
        × (env.authorized p ≡ true)
        × (t.sponsors ≡ s.sponsors)
        × (t.grants
            ≡ put s.grants (grant_key p u) (record grant { revoked = true; updated_at = env.now }))
  unfolding revoke_user_grant
  revoke_user_grant-authorized env sponsor user s t h = ground arith

  -- What `p` has stored: its sponsor record and its grants.
  pub record Untouched (p : Bytes) (s t : State) : Type 0 where
    pub sponsor : get t.sponsors p ≡ get s.sponsors p
    pub grants : (u : Bytes) → get t.grants (grant_key p u) ≡ get s.grants (grant_key p u)

  other_sponsor :
      (env : Env) (a p : Bytes) (s t : State) (rec : SponsorRecord)
      → env.authorized a ≡ true
      → env.authorized p ≡ false
      → t.grants ≡ s.grants
      → t.sponsors ≡ put s.sponsors a rec
      → Untouched p s t
  other_sponsor env a p s t rec signed unsigned g e = record {
    sponsor = ground (arith, get-put s.sponsors a rec p, equal_iff a p);
    grants = λ u. rw g refl;
  }

  other_grant :
      (env : Env) (a b p : Bytes) (s t : State) (grant : UserGrant)
      → length a ≡ length p
      → env.authorized a ≡ true
      → env.authorized p ≡ false
      → t.sponsors ≡ s.sponsors
      → t.grants ≡ put s.grants (grant_key a b) grant
      → Untouched p s t
  other_grant env a b p s t grant l signed unsigned g e = record {
    sponsor = rw g refl;
    grants = λ u. elim (Bool-cases (equal (grant_key a b) (grant_key p u))) [
      | inl hit ↦ absurd (
          other_key
            (concat_pair_injective a p b u l ((equal_iff (grant_key a b) (grant_key p u)).0 hit)).0)
      | inr apart ↦ rw (e, get-put, apart) refl
    ];
  }
    where
      other_key : a ≡ p → ⊥
      other_key h = ground arith

  -- No call changes the sponsor record or a grant of an address that has not authorized the call:
  -- neither another sponsor nor a user can register, deactivate, grant or revoke in its name.
  pub Step-authority :
      (env : Env) (p : Bytes) (s t : State)
      → length p ≡ 25
      → env.authorized p ≡ false
      → Step env s t
      → Untouched p s t
  Step-authority env p s t l unsigned (sets args e) =
      let (a, _, _, _, _, _, signed, g, x) = set_sponsor-authorized env args s t e in
      other_sponsor env a p s t _ signed unsigned g x
  Step-authority env p s t l unsigned (deactivates sponsor e) =
      let (a, _, _, _, signed, g, x) = deactivate_sponsor-authorized env sponsor s t e in
      other_sponsor env a p s t _ signed unsigned g x
  Step-authority env p s t l unsigned (grants sponsor user daily_ops expires_at e) =
      let (a, b, _, from, _, _, _, signed, g, x) =
        set_user_grant-authorized env sponsor user daily_ops expires_at s t e in
      other_grant env a b p s t _ ((require_address-ok sponsor "sponsor" a from).1 ∙ sym l) signed
        unsigned g x
  Step-authority env p s t l unsigned (revokes sponsor user e) =
      let (a, b, _, from, _, _, signed, g, x) =
        revoke_user_grant-authorized env sponsor user s t e in
      other_grant env a b p s t _ ((require_address-ok sponsor "sponsor" a from).1 ∙ sym l) signed
        unsigned g x
