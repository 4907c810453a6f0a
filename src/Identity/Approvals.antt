-- ===== src/Identity/Approvals.antt =====
-- The approvals that guardians have given by `propose_recovery` in a history of calls.
use open_social_protocol.Prelude.{ℕ, ◌≡◌, ◌⊎◌, true, Option}
use open_social_protocol.Chain.{Bytes, Sdk, Env, ok}
use open_social_protocol.Chain.Util.{value}
use open_social_protocol.Identity.State.{State}
use open_social_protocol.Identity.Recovery.{propose_recovery}
use open_social_protocol.Identity.Effects.{Reach, here, next}

module _ ⦃sdk : Sdk⦄ where
  -- The call is a successful `propose_recovery`, signed by the guardian, for the account and the owner.
  pub record Approval (env : Env) (s t : State) (account : Bytes) (at : ℕ)
      (guardian new_owner : Bytes) : Type 0 where
    pub account_argument : Option Bytes
    pub guardian_argument : Option Bytes
    pub owner_argument : Option Bytes
    pub call : propose_recovery env account_argument guardian_argument owner_argument s ≡ ok t
    pub for_account : value account_argument ≡ account
    pub by : value guardian_argument ≡ guardian
    pub for_owner : value owner_argument ≡ new_owner
    pub signed : env.authorized guardian ≡ true
    pub time : env.now ≡ at

  -- A call of the history was an approval by the guardian.
  abbrev pub Approved : {n : ℕ} {s : State} → Reach n s → Bytes → ℕ → Bytes → Bytes → Type 0
  Approved here account at guardian new_owner = ⊥
  Approved (next {s = s} {t = t} env r st) account at guardian new_owner =
      Approved r account at guardian new_owner ⊎ Approval env s t account at guardian new_owner
