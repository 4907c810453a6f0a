-- ===== src/Chain/Calls.antt =====
-- What a contract sees of the chain during one call.
use open_social_protocol.Prelude.{ℕ, String, Bool, Option}
use open_social_protocol.Chain.Storage.{Bytes}

-- System.call: a non-zero code, a zero code with no result object, or a decoded result.
pub data Reply {ℓ} (A : Type ℓ) : Type ℓ where
  failed : Reply A
  empty : Reply A
  object : A → Reply A

-- identity.resolve_actor_result
pub record ResolveActorResult : Type 0 where
  pub ok : Bool
  pub signer : Option Bytes
  pub reason : Option String

-- The fields of the publications contract's post record that its callers read.
pub record PostView : Type 0 where
  pub author : Option Bytes
  pub state : ℕ

-- Each other contract is called by its address, so the replies are functions of it.
pub record Env : Type 0 where
  -- System.getContractId()
  pub contract_id : Bytes
  -- System.getHeadInfo().head_block_time, which Util.now returns
  pub now : ℕ
  -- System.requireAuthority(contract_call, account) does not revert
  pub authorized : Bytes → Bool
  -- System.getCaller().caller
  pub caller : Option Bytes
  -- System.getChainId()
  pub chain_id : Bytes
  -- System.hash(sha2_256, data), a multihash
  pub hash : Bytes → Bytes
  -- identity.resolve_actor(account, device, capability)
  pub resolve_actor : Bytes → Bytes → Option Bytes → ℕ → Reply ResolveActorResult
  -- relationships.is_blocked(blocker, blocked)
  pub is_blocked : Bytes → Bytes → Bytes → Reply Bool
  -- publications.get_post(post_id), `none` for a null value
  pub get_post : Bytes → Bytes → Reply (Option PostView)
