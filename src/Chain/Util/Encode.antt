-- ===== src/Chain/Util/Encode.antt =====
-- Util.u32be and Util.u64be can be read back.
use open_social_protocol.Prelude.{ℕ, ◌+◌, ◌*◌, ◌^◌, ◌<◌, ◌≡◌, [], ◌∷◌, arith}
use open_social_protocol.Chain.Storage.{Bytes}
use open_social_protocol.Chain.Util.{u32be, u64be}

-- A big-endian number, its most significant byte first.
abbrev pub from_be : ℕ → Bytes → ℕ
from_be acc [] = acc
from_be acc (x ∷ b) = from_be (acc * 256 + x) b

-- The eight bytes of a number below 2^64, read as a big-endian number, give it back.
pub u64be_decode : (v : ℕ) → v < 2 ^ 64 → from_be 0 (u64be v) ≡ v
unfolding u64be
u64be_decode v h = omega arith

-- The four bytes of a number below 2^32, read as a big-endian number, give it back.
pub u32be_decode : (v : ℕ) → v < 2 ^ 32 → from_be 0 (u32be v) ≡ v
unfolding u32be
u32be_decode v h = omega arith
