-- ===== src/Chain/Revert.antt =====
-- `System.require` and a trap: a call either returns or reverts with a reason. What a reverted
-- call has written is discarded by the chain, so no state comes back beside the reason.
use open_social_protocol.Prelude.{String, Bool, true, false, Option, none, some, ◌≡◌, refl}

pub data Result {ℓ} (A : Type ℓ) : Type ℓ where
  reverted : String → Result A
  ok : A → Result A

-- System.require(condition, message)
abbrev pub require : Bool → String → Result (Unit {0})
require false message = reverted message
require true message = ok tt

-- The rest of a method after a call that may revert.
module _ {ℓ κ} {A : Type ℓ} {B : Type κ} where
  infixl 5 ◌>>=◌
  abbrev pub ◌>>=◌ : Result A → (A → Result B) → Result B
  reverted reason >>= rest = reverted reason
  ok x >>= rest = rest x

  -- A method of two parts returns only if each part does.
  pub >>=-eq-ok :
      (first : Result A) (rest : A → Result B) {y : B}
      → (first >>= rest) ≡ ok y
      → (x : A) × (first ≡ ok x) × (rest x ≡ ok y)
  >>=-eq-ok (reverted reason) rest e = cc
  >>=-eq-ok (ok x) rest e = (x, refl, e)

module _ {ℓ} {A : Type ℓ} where
  -- The rest of a method after a check.
  infixl 5 ◌>>◌
  abbrev pub ◌>>◌ : Result (Unit {0}) → Result A → Result A
  reverted reason >> rest = reverted reason
  ok x >> rest = rest

  -- `x!` after a check, or a trap on null.
  abbrev pub require_some : Option A → String → Result A
  require_some (some x) message = ok x
  require_some none message = reverted message

  pub ok-injective : {x y : A} → ok x ≡ ok y → x ≡ y
  ok-injective e = cc
