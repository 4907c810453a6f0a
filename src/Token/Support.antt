-- ===== src/Token/Support.antt =====
-- `support`: the reward for a post, within the daily caps and the maximum supply.
use Prim.Native.Nat.{min}
use open_social_protocol.Prelude.{
  ℕ, ◌-◌, ◌/◌, Bool, Option, none, some, [], ◌∷◌, not, ltb, ◌==◌, length, if◌then◌else◌,
}
use open_social_protocol.Chain.{
  Bytes, Sdk, Env, Reply, failed, empty, object, PostView, Result, ok, reverted, ◌>>=◌, ◌>>◌,
  require, require_some, add64, sub64, mul64,
}
use open_social_protocol.Chain.Util.{require_address, require_bytes, concat}
use open_social_protocol.Chain.Actor
use open_social_protocol.Chain.Actor.{require_authorized}
use open_social_protocol.Token.State.{
  day_ms, per_token, max_supply, AccountState, RewardState, Config, supported, State, emit,
}
use open_social_protocol.Token.Credits.{cfg, load, save, spend}
use open_social_protocol.Token.Methods.{is_none}

-- publications.lifecycle_state.active
abbrev active : ℕ
active = 0

abbrev pub post_of : Reply (Option PostView) → Result (Option PostView)
post_of failed = reverted "post lookup failed"
post_of empty = reverted "post lookup failed"
post_of (object p) = ok p

-- The author of a post that exists and is active.
abbrev pub author_of : Option PostView → Result Bytes
author_of none = reverted "post is not active"
author_of (some p) = do
  require (p.state == active) "post is not active"
  require_some p.author "unexpected null"

abbrev pub unblocked : Reply Bool → Result (Unit {0})
unblocked failed = reverted "block lookup failed"
unblocked empty = reverted "block lookup failed"
unblocked (object b) = require (not b) "support blocked"

-- The counter of today, zero if the stored one is of another day.
unfoldable pub counter : ℕ → Option RewardState → RewardState
counter day none = record { day = day; minted = 0 }
counter day (some r) = if r.day == day then r else record { day = day; minted = 0 }

-- What is left below a cap.
abbrev pub room : ℕ → ℕ → ℕ
room cap minted = if ltb minted cap then cap - minted else 0

-- The reward, cut to each cap in turn.
unfoldable pub reward_for : Config → RewardState → RewardState → ℕ
reward_for c global user =
    min
      (min (min c.reward_amount (room c.daily_reward_cap global.minted))
        (room c.recipient_daily_cap user.minted))
      (sub64 max_supply c.supply)

abbrev pub count : ℕ → RewardState → RewardState
count reward r = record r { minted = add64 r.minted reward }

abbrev pub credit : ℕ → AccountState → AccountState
credit reward a = record a {
  balance = add64 a.balance reward;
  token_credits = add64 a.token_credits (mul64 reward per_token);
}

-- The local variables `actor`, `id`, `recipient` and `c` of `support`.
pub record Checked : Type 0 where
  pub actor : Bytes
  pub id : Bytes
  pub recipient : Bytes
  pub config : Config

module _ ⦃sdk : Sdk⦄ where
  open sdk use {get, put, equal}

  -- The part of `support` under `reward > 0`.
  unfoldable pub mint : Env → Bytes → ℕ → Config → State → State
  mint env recipient reward c s =
      if ltb 0 reward
      then save env recipient (credit reward (load env s recipient))
          (record s { config = some (record c { supply = add64 c.supply reward }) })
      else s

  -- The writes of `support` after the actor has paid.
  unfoldable pub record_support : Env → Bytes → Bytes → Bytes → Config → State → State × ℕ
  record_support env actor id recipient c s =
      let day = env.now / day_ms in
      let global = counter day s.global in
      let user = counter day (get s.rewards recipient) in
      let reward = reward_for c global user in
      let s' = record s {
        supports =
            put s.supports (concat (actor ∷ id ∷ [])) (record { day = day; minted = reward });
        global = some (count reward global);
        rewards = put s.rewards recipient (count reward user);
      } in
      (
        emit (supported actor recipient id reward env.now) (actor ∷ recipient ∷ [])
            (mint env recipient reward c s'),
        reward,
      )

  -- What `support` reads and checks before it charges the actor.
  unfoldable pub support_checks :
      Env → Option Bytes → Option Bytes → Option Bytes → State → Result Checked
  support_checks env actor post_id device s = do
    a ← require_address actor "actor"
    id ← require_bytes post_id 32 "post id"
    c ← cfg s
    require (length id == 32) "post id must be 32 bytes"
    signer ← require_authorized env c.identity a device Actor.support
    post ← post_of (env.get_post c.publications id)
    recipient ← author_of post
    require (not (equal a recipient)) "cannot support your own post"
    unblocked (env.is_blocked c.relationships a recipient)
    unblocked (env.is_blocked c.relationships recipient a)
    require (is_none (get s.supports (concat (a ∷ id ∷ [])))) "already supported this post"
    ok (record { actor = a; id = id; recipient = recipient; config = c })

  -- Token.support
  unfoldable pub support :
      Env → Option Bytes → Option Bytes → Option Bytes → State → Result (State × ℕ)
  support env actor post_id device s = do
    x ← support_checks env actor post_id device s
    s' ← spend env x.actor 1 s
    ok (record_support env x.actor x.id x.recipient x.config s')
