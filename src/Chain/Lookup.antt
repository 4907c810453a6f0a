-- ===== src/Chain/Lookup.antt =====
-- A write to a map of the storage, seen at a key.
use open_social_protocol.Prelude.{◌≡◌, ◌⊎◌, inl, inr, refl, false, none, some, arith, Bool-cases}
use open_social_protocol.Chain.Storage.{Bytes, Sdk}

pub some_injective : {A : Type 0} {x y : A} → some x ≡ some y → x ≡ y
some_injective h = ground arith

module _ ⦃sdk : Sdk⦄ {V : Type 0} where
  open sdk use {Map, get, put, remove, equal, get-put, get-remove, equal_iff}

  pub put_at :
      (m : Map V) (j k : Bytes) (v : V)
      → ((j ≡ k) × (get (put m j v) k ≡ some v))
        ⊎ ((equal j k ≡ false) × (get (put m j v) k ≡ get m k))
  put_at m j k v = elim (Bool-cases (equal j k)) [
    | inl same ↦ inl ((equal_iff j k).0 same, rw (get-put, same) refl)
    | inr other ↦ inr (other, rw (get-put, other) refl)
  ]

  pub remove_at :
      (m : Map V) (j k : Bytes)
      → ((j ≡ k) × (get (remove m j) k ≡ none))
        ⊎ ((equal j k ≡ false) × (get (remove m j) k ≡ get m k))
  remove_at m j k = elim (Bool-cases (equal j k)) [
    | inl same ↦ inl ((equal_iff j k).0 same, rw (get-remove, same) refl)
    | inr other ↦ inr (other, rw (get-remove, other) refl)
  ]
