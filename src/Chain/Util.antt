-- ===== src/Chain/Util.antt =====
-- packages/contracts/common/assembly/util.ts
pub mod Concat
pub mod Compare
pub mod Encode
pub mod Require
use open_social_protocol.Prelude.{
  ℕ, zero, suc, ◌+◌, ◌/◌, ◌%◌, ◌^◌, String, str_append, Bool, true, false, Option, none, some, List,
  [], ◌∷◌, ◌++◌, ◌==◌, leb, ltb, length, replicate, if◌then◌else◌,
}
use open_social_protocol.Chain.Revert.{Result, ok, ◌>>=◌, ◌>>◌, require}
use open_social_protocol.Chain.Storage.{Bytes, Text}

-- The first loop of `concat`.
unfoldable pub total_length : List Bytes → ℕ
total_length [] = 0
total_length (p ∷ parts) = length p + total_length parts

-- Uint8Array.set(part, offset), a trap if it does not fit.
unfoldable pub blit : Bytes → ℕ → Bytes → Option Bytes
blit out zero [] = some out
blit [] zero (x ∷ part) = none
blit (o ∷ out) zero (x ∷ part) = elim (blit out zero part) [
  | none ↦ none
  | some rest ↦ some (x ∷ rest)
]
blit [] (suc offset) part = none
blit (o ∷ out) (suc offset) part = elim (blit out offset part) [
  | none ↦ none
  | some rest ↦ some (o ∷ rest)
]

-- The second loop of `concat`.
unfoldable pub fill : Bytes → ℕ → List Bytes → Option Bytes
unfolding blit
fill out offset [] = some out
fill out offset (p ∷ parts) = elim (blit out offset p) [
  | none ↦ none
  | some out' ↦ fill out' (offset + length p) parts
]

-- Util.concat
unfoldable pub concat_buffer : List Bytes → Option Bytes
unfolding total_length fill
concat_buffer parts = fill (replicate (total_length parts) 0) 0 parts

-- What `concat_buffer` returns (Concat.concat_buffer-eq-concat).
abbrev pub concat : List Bytes → Bytes
concat [] = []
concat (p ∷ parts) = p ++ concat parts

-- Util.compare: -1, 0 and 1 are `less`, `same` and `greater`.
pub data Sign : Type 0 where
  less same greater : Sign

-- Lexicographic byte comparison: the first difference decides, then the length.
unfoldable pub compare : Bytes → Bytes → Sign
compare [] [] = same
compare [] (y ∷ b) = less
compare (x ∷ a) [] = greater
compare (x ∷ a) (y ∷ b) =
    let rest = compare a b in if ltb x y then less else if ltb y x then greater else rest

-- `Util.compare(a, b) < 0 ? x : y`
abbrev pub if_less : {A : Type 0} → Sign → A → A → A
if_less less x y = x
if_less same x y = y
if_less greater x y = y

-- `Util.compare(a, b) <= 0 ? x : y`
abbrev pub if_not_greater : {A : Type 0} → Sign → A → A → A
if_not_greater less x y = x
if_not_greater same x y = x
if_not_greater greater x y = y

-- Util.u32be
unfoldable pub u32be : ℕ → Bytes
u32be v = v / 2 ^ 24 % 256 ∷ v / 2 ^ 16 % 256 ∷ v / 2 ^ 8 % 256 ∷ v % 256 ∷ []

-- The loop of `u64be`, which fills the buffer from its last byte.
unfoldable pub u64be_loop : ℕ → ℕ → Bytes → Bytes
u64be_loop zero v out = out
u64be_loop (suc i) v out = u64be_loop i (v / 2 ^ 8) (v % 256 ∷ out)

-- Util.u64be
unfoldable pub u64be : ℕ → Bytes
unfolding u64be_loop
u64be v = u64be_loop 8 v []

-- Util.isEmpty
unfoldable pub is_empty : Option Bytes → Bool
is_empty none = true
is_empty (some v) = length v == 0

-- `v!` of a bytes field that was just required to be non-empty.
abbrev pub value : Option Bytes → Bytes
value none = []
value (some v) = v

-- Util.requireBytes
unfoldable pub require_bytes : Option Bytes → ℕ → String → Result Bytes
unfolding is_empty
require_bytes v max what = do
  require (if is_empty v then false else true) (str_append what " is required")
  require (leb (length (value v)) max) (str_append what " too large")
  ok (value v)

-- Util.requireAddress
unfoldable pub require_address : Option Bytes → String → Result Bytes
unfolding is_empty
require_address v what = do
  require (if is_empty v then false else true) (str_append what " is required")
  require (length (value v) == 25) (str_append what " must be a 25-byte address")
  ok (value v)

-- Util.requireString
unfoldable pub require_string : Option Text → ℕ → String → Result Text
require_string none max what = ok []
require_string (some v) max what = do
  require (leb (length v) max) (str_append what " too long")
  ok v
