-- ===== src/Chain/Util/Require.antt =====
-- What the checks on a bytes field let through.
use open_social_protocol.Prelude.{ℕ, String, ◌≡◌, Option, length, arith}
use open_social_protocol.Chain.Revert.{ok}
use open_social_protocol.Chain.Storage.{Bytes}
use open_social_protocol.Chain.Util.{value, require_address, require_bytes}

pub require_address-ok :
    (v : Option Bytes) (what : String) (a : Bytes)
    → require_address v what ≡ ok a
    → (a ≡ value v) × (length a ≡ 25)
unfolding require_address
require_address-ok v what a h = ground arith

pub require_bytes-ok :
    (v : Option Bytes) (max : ℕ) (what : String) (a : Bytes)
    → require_bytes v max what ≡ ok a
    → a ≡ value v
unfolding require_bytes
require_bytes-ok v max what a h = ground arith
