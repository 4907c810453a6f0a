-- ===== src/Chain/Actor.antt =====
-- packages/contracts/common/assembly/actor.ts
use open_social_protocol.Prelude.{ℕ, String, Bool, false, Option, none, some, [], ◌∷◌, ltb, length}
use open_social_protocol.Chain.Revert.{Result, ok, reverted, ◌>>=◌, ◌>>◌, require, require_some}
use open_social_protocol.Chain.Storage.{Bytes, Sdk}
use open_social_protocol.Chain.Calls.{Reply, failed, empty, object, ResolveActorResult, Env}

-- Capability bits.
abbrev pub publish : ℕ
publish = 1

abbrev pub react : ℕ
react = 2

abbrev pub comment : ℕ
comment = 4

abbrev pub relationships : ℕ
relationships = 8

abbrev pub community : ℕ
community = 16

abbrev pub profile : ℕ
profile = 32

abbrev pub messaging : ℕ
messaging = 64

abbrev pub support : ℕ
support = 128

-- An empty device is sent as null.
abbrev pub device_or_null : Option Bytes → Option Bytes
device_or_null none = none
device_or_null (some []) = none
device_or_null (some (x ∷ d)) = some (x ∷ d)

abbrev pub reason_or : Option String → String
reason_or none = "actor not authorized"
reason_or (some r) = r

-- A failed call reverts, and `call.res.object!` traps when it is null.
abbrev pub resolved : Reply ResolveActorResult → Result ResolveActorResult
resolved failed = reverted "identity resolution failed"
resolved empty = reverted "unexpected null"
resolved (object r) = ok r

-- Actor.requireAuthorized
unfoldable pub require_authorized : Env → Bytes → Bytes → Option Bytes → ℕ → Result Bytes
require_authorized env identity_contract account device capability = do
  require (ltb 0 (length identity_contract)) "identity contract not configured"
  res ← resolved (env.resolve_actor identity_contract account (device_or_null device) capability)
  require res.ok (reason_or res.reason)
  signer ← require_some res.signer "unexpected null"
  require (env.authorized signer) "authorization failed"
  ok signer

abbrev pub reply_ok : Reply ResolveActorResult → Bool
reply_ok failed = false
reply_ok empty = false
reply_ok (object r) = r.ok

-- Actor.exists
unfoldable pub exists : Env → Bytes → Bytes → Result Bool
exists env identity_contract account = do
  require (ltb 0 (length identity_contract)) "identity contract not configured"
  ok (reply_ok (env.resolve_actor identity_contract account none 0))

-- Actor.same
unfoldable pub same : ⦃sdk : Sdk⦄ → Option Bytes → Option Bytes → Bool
same ⦃sdk⦄ none b = false
same ⦃sdk⦄ (some a) none = false
same ⦃sdk⦄ (some a) (some b) = sdk.equal a b
