-- ===== src/Examples/Mock.antt =====
-- A store, a chain and a usage ledger to run the contracts on.
use open_social_protocol.Prelude.{
  ℕ, Bool, true, false, ◌&&◌, Option, none, some, [], ◌∷◌, ◌≡◌, ◌↔◌, refl, arith, ◌==◌, ◌-◌, leb,
  replicate, ◌+◌, ◌%◌, if◌then◌else◌,
}
use open_social_protocol.Chain.{Usage, Bytes, Sdk, Env, object, Result, ok, reverted}

abbrev pub list_equal : Bytes → Bytes → Bool
list_equal [] [] = true
list_equal [] (y ∷ b) = false
list_equal (x ∷ a) [] = false
list_equal (x ∷ a) (y ∷ b) = (x == y) && list_equal a b

eq_of_list_equal : (a b : Bytes) → list_equal a b ≡ true → a ≡ b
eq_of_list_equal [] [] h = refl
eq_of_list_equal [] (y ∷ b) h = ground arith
eq_of_list_equal (x ∷ a) [] h = ground arith
eq_of_list_equal (x ∷ a) (y ∷ b) h = ground (arith, eq_of_list_equal a b)

list_equal_refl : (a : Bytes) → list_equal a a ≡ true
list_equal_refl [] = refl
list_equal_refl (x ∷ a) = ground (arith, list_equal_refl a)

pub list_equal_iff : (a b : Bytes) → (list_equal a b ≡ true) ↔ (a ≡ b)
list_equal_iff a b = (λ h. eq_of_list_equal a b h, λ e. rw e (list_equal_refl b))

instance abbrev pub mock : Sdk
mock = record {
  equal = list_equal;
  equal_iff = list_equal_iff;
  Map = λ V. Bytes → Option V;
  empty = λ k. none;
  get = λ m k. m k;
  put = λ m k v j. if list_equal k j then some v else m j;
  remove = λ m k j. if list_equal k j then none else m j;
  get-empty = λ k. refl;
  get-put = λ m k v j. refl;
  get-remove = λ m k j. refl;
  string_to_bytes = λ s. s;
  string_to_bytes_injective = λ s t e. e;
}

-- Allowances by account, whichever contract is asked.
instance abbrev pub ledger : Usage
ledger = record {
  Ledger = ℕ;
  consume = λ token account units left. if leb units left then some (left - units) else none;
}

abbrev pub weight : Bytes → ℕ
weight [] = 0
weight (x ∷ b) = x + weight b

-- An address of 25 equal bytes.
abbrev pub address : ℕ → Bytes
address n = replicate 25 n

-- A chain on which every check passes: the signer of an account is the account itself, and every
-- post is an active one of account 2.
abbrev pub chain_at : ℕ → Env
chain_at time = record {
  contract_id = address 9;
  now = time;
  authorized = λ a. true;
  caller = some (address 7);
  chain_id = 1 ∷ 2 ∷ [];
  hash = λ b. 18 ∷ 32 ∷ replicate 32 (weight b % 256);
  resolve_actor = λ identity account device capability.
      object (record { ok = true; signer = some account; reason = none });
  is_blocked = λ relationships a b. object false;
  get_post = λ publications id. object (some (record { author = some (address 2); state = 0 }));
}

-- The state after a call that succeeds, or another one.
abbrev pub after : {A : Type 0} → A → Result A → A
after s (ok t) = t
after s (reverted e) = s
