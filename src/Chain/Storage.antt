-- ===== src/Chain/Storage.antt =====
-- The parts of @koinos/sdk-as that the contracts call, as an interface with their documented
-- behaviour: array equality, the key-value store and the UTF-8 encoding of a string.
use open_social_protocol.Prelude.{ℕ, Bool, true, Option, none, some, List, ◌≡◌, ◌↔◌, if◌then◌else◌}

-- A `Uint8Array`, one number below 256 for each byte.
abbrev pub Bytes : Type 0
Bytes = List ℕ

-- A `string`, one number for each UTF-16 code unit.
abbrev pub Text : Type 0
Text = List ℕ

pub record Sdk : Type 1 where
  pub equal : Bytes → Bytes → Bool
  pub equal_iff : (a b : Bytes) → (equal a b ≡ true) ↔ (a ≡ b)
  pub Map : Type 0 → Type 0
  pub empty : {V : Type 0} → Map V
  pub get : {V : Type 0} → Map V → Bytes → Option V
  pub put : {V : Type 0} → Map V → Bytes → V → Map V
  pub remove : {V : Type 0} → Map V → Bytes → Map V
  pub get-empty : {V : Type 0} (k : Bytes) → get (empty {V = V}) k ≡ none
  pub get-put :
      {V : Type 0} (m : Map V) (k : Bytes) (v : V) (j : Bytes)
      → get (put m k v) j ≡ (if equal k j then some v else get m j)
  pub get-remove :
      {V : Type 0} (m : Map V) (k j : Bytes)
      → get (remove m k) j ≡ (if equal k j then none else get m j)
  pub string_to_bytes : Text → Bytes
  pub string_to_bytes_injective : (s t : Text) → string_to_bytes s ≡ string_to_bytes t → s ≡ t
