-- ===== src/Relationships/Rotation.antt =====
-- The audiences at the end of a friendship, as `remove_friend` of Relationships.ts moves them: both. The
-- contract's README and docs/protocol-spec.md name the audience of the actor only.
use open_social_protocol.Prelude.{
  ℕ, ◌+◌, ◌-◌, ◌<◌, ◌≡◌, ◌⊎◌, inl, inr, refl, ap, ◌∙◌, true, false, Option, arith,
}
use open_social_protocol.Chain.{Bytes, Sdk, Env, Usage, ok, u32_mod, add32}
use open_social_protocol.Chain.Util.{require_address, value}
use open_social_protocol.Chain.Util.Require.{require_address-ok}
use open_social_protocol.Relationships.State.{AudienceState, State}
use open_social_protocol.Relationships.Checks.{audience_or_zero, load_audience, advance_epoch}
use open_social_protocol.Relationships.Friends.{remove_friend}

abbrev pub advanced : AudienceState → ℕ → AudienceState
advanced old now = record { epoch = add32 old.epoch 1; updated_at = now }

advanced-epoch :
    (old : AudienceState) (now : ℕ)
    → old.epoch < u32_mod - 1
    → (advanced old now).epoch ≡ old.epoch + 1
advanced-epoch old now h = omega arith

module _ ⦃sdk : Sdk⦄ ⦃usage : Usage⦄ where
  open sdk use {get, put, equal, get-put, equal_iff}

  record Written (env : Env) (actor peer : Option Bytes) (s t : State) : Type 0 where
    a : Bytes
    b : Bytes
    from : require_address actor "actor" ≡ ok a
    to : require_address peer "peer" ≡ ok b
    distinct : equal a b ≡ false
    first : (audience_or_zero (get s.audiences a)).epoch < u32_mod - 1
    second :
        (audience_or_zero (
          get
            (put s.audiences a (advanced (audience_or_zero (get s.audiences a)) env.now))
            b)).epoch
        < u32_mod - 1
    audiences :
        t.audiences
        ≡ put (put s.audiences a (advanced (audience_or_zero (get s.audiences a)) env.now)) b (
            advanced
              (audience_or_zero (
                get
                  (put s.audiences a (advanced (audience_or_zero (get s.audiences a)) env.now))
                  b))
              env.now)

  remove_friend-Written :
      (env : Env) (actor peer device : Option Bytes) (s t : State)
      → remove_friend env actor peer device s ≡ ok t
      → Written env actor peer s t
  unfolding remove_friend advance_epoch load_audience
  remove_friend-Written env actor peer device s t h = ground arith

  -- Two writes, seen at either key and elsewhere.
  two_writes :
      (m : sdk.Map AudienceState) (a b : Bytes) (x y : AudienceState)
      → equal a b ≡ false
      → (audience_or_zero (get (put m a x) b) ≡ audience_or_zero (get m b))
        × (audience_or_zero (get (put (put m a x) b y) a) ≡ x)
        × (audience_or_zero (get (put (put m a x) b y) b) ≡ y)
        × ((j : Bytes)
            → (equal a j ≡ true) ⊎ (equal b j ≡ true) ⊎ (get (put (put m a x) b y) j ≡ get m j))
  two_writes m a b x y h = (
    rw (get-put, h) refl,
    ground (
      arith,
      get-put m a x a,
      get-put (put m a x) b y a,
      equal_iff a a,
      equal_iff a b,
      equal_iff b a,
    ),
    ground (arith, get-put (put m a x) b y b, equal_iff b b),
    λ j. ground (arith, get-put m a x j, get-put (put m a x) b y j),
  )

  -- A successful call of `remove_friend` moves the audience epochs of both former friends on by
  -- exactly one, without wrapping around, and leaves every other account's.
  pub remove_friend_rotates :
      (env : Env) (actor peer device : Option Bytes) (s t : State)
      → remove_friend env actor peer device s ≡ ok t
      → ((load_audience t (value actor)).epoch ≡ (load_audience s (value actor)).epoch + 1)
        × ((load_audience t (value peer)).epoch ≡ (load_audience s (value peer)).epoch + 1)
        × ((j : Bytes)
            → (equal (value actor) j ≡ true)
              ⊎ (equal (value peer) j ≡ true)
              ⊎ (load_audience t j ≡ load_audience s j))
  unfolding load_audience
  remove_friend_rotates env actor peer device s t h =
      let x = remove_friend-Written env actor peer device s t h in
      let w =
        two_writes s.audiences x.a x.b (advanced (audience_or_zero (get s.audiences x.a)) env.now)
          (advanced
            (audience_or_zero (
              get (put s.audiences x.a (advanced (audience_or_zero (get s.audiences x.a)) env.now))
                x.b))
            env.now)
          x.distinct in
      rw
        (
          ← (require_address-ok actor "actor" x.a x.from).0,
          ← (require_address-ok peer "peer" x.b x.to).0,
          x.audiences,
        )
        (
          rw (w.1) (advanced-epoch (audience_or_zero (get s.audiences x.a)) env.now x.first),
          rw (w.2) (
              advanced-epoch
                (audience_or_zero (
                  get
                    (put s.audiences x.a
                      (advanced (audience_or_zero (get s.audiences x.a)) env.now))
                    x.b))
                env.now x.second
              ∙ ap (λ (z : AudienceState). z.epoch + 1) w.0),
          λ j. elim (w.3 j) [
            | inl at_a ↦ inl at_a
            | inr (inl at_b) ↦ inr (inl at_b)
            | inr (inr same) ↦ inr (inr (ap audience_or_zero same))
          ],
        )
