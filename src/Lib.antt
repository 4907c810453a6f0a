-- ===== src/Lib.antt =====
-- Open Social Protocol: the contracts' own logic and the client's cross-post state machine, with
-- the theorems that make them correct.
--
-- The program is a social network on the Koinos chain. Each contract (packages/contracts/<name>)
-- is a class whose methods read and write typed maps in chain storage, call other contracts by
-- address and emit events; a method that fails a check reverts and leaves no trace. The identity
-- contract says who may act for an account, and the contracts of users ask it before they
-- write, the token contract and publications also ask relationships whether one account blocks
-- another, and messaging, relationships and publications charge an account through the token
-- contract. The registry says which contract addresses are active, and
-- the sponsorship contract stores who pays for whom. On the client, packages/sdk/src/reconcile.ts
-- tracks a post that goes to a host site and to the chain.
--
-- Files and code:
--   Prelude        shared names, lists over native numbers, tests as Booleans
--   Chain          reverts (Revert), storage and the platform's functions (Storage), what a call
--                  sees of the chain (Calls), wrapping u64 and u32 (Word), the token contract's
--                  consume (Allowance), writes seen at a key (Lookup)
--   Chain/Util     packages/contracts/common/assembly/util.ts, one function per function, with
--                  Concat, Compare, Encode and Require for its theorems
--   Chain/Actor    packages/contracts/common/assembly/actor.ts
--   Token          packages/contracts/token/assembly/Token.ts: Credits, Methods and Support hold
--                  the methods; Bounds, Balances, Invariant, Keeps, Mint and History the backing of
--                  the supply; Once, Caps and Effects the rewards and the accounts
--   Identity       packages/contracts/identity/assembly/Identity.ts: Resolve, Keys, Devices, Policy
--                  and Recovery hold the methods; Calls and RecoveryCalls what a successful call has
--                  found, Effects the step relation; Actors, Owners, Guardians, Approvals,
--                  Validity, Guarded and Quorum the rest
--   Messaging      packages/contracts/messaging/assembly/Messaging.ts: Checks, Conversations and
--                  Messages hold the methods; Pairs, Delivery and Lifecycle the theorems
--   Relationships  packages/contracts/relationships/assembly/Relationships.ts: Checks, Friends and
--                  Blocks hold the methods; Calls what a successful call has found; Separation,
--                  History and Rotation the theorems
--   Publications   packages/contracts/publications/assembly/Publications.ts: Checks, Arguments,
--                  Publish and Methods hold the methods; Calls and Effects what a call writes, and the step
--                  relation; History, Sequence, Numbers, Outcomes, Replies and Deleted the theorems
--   Communities    packages/contracts/communities/assembly/Communities.ts: Roles, Methods and
--                  Transfer hold the methods; Calls what a successful call has found, Ownership the
--                  step relation and its theorem; Ranks, Permissions, Owners and Due the rest
--   Network        the charges of relationships, publications and messaging (Charges) on the token
--                  contract itself, in place of the interface (Settlement)
--   Registry       packages/contracts/registry/assembly/Registry.ts: Checks, Contracts, Admin and
--                  Listing hold the methods; Entries the step relation,
--                  Versions and Sorting the theorems
--   Sponsorship    packages/contracts/sponsorship/assembly/Sponsorship.ts: Sponsors and Grants hold
--                  the methods; Authority the theorem
--   Reconcile      packages/sdk/src/reconcile.ts up to retryPlan: Attempt and Transition; Runs the
--                  theorems
--   Examples       a store and a chain, and runs of the contracts on them
--
-- How it is modelled. The storage of a contract is a record of maps (State in each State file) that
-- a method takes and, on success, returns; Result is that or a revert with its text, and a revert
-- gives no state because the chain discards what a reverted call has written. The platform is a
-- parameter: Sdk is array equality, a key-value store with its get and put laws and an injective
-- string encoding, and Env is what a call sees (time, who has signed, the caller, a hash, the replies
-- of other contracts by address). Usage is the token contract's consume as messaging, relationships
-- and publications call it. The enum arguments of publications and communities come over the wire
-- as 32 bits and are numbers here, with the methods' own range checks.
-- Events are recorded in the state with their impacted addresses. Records are those of the
-- generated proto classes; a field that the contract never stores as null is not an Option. u64 and
-- u32 arithmetic is written with its wrap-around (add64, sub64, mul64, add32); strings are lists of
-- UTF-16 units. Histories are indexed families Step and Reach, one constructor for each method that
-- writes. All loops are structural recursion, so no fuel is used.
--
-- Not modelled: the entry-point dispatch and protobuf coding (generated), list_sponsors and the
-- getMany call of list_contracts (the entries it returns are an argument), token name, symbol and
-- decimals, the Reconciler class with its network calls, the rest of packages/sdk, and the
-- applications under apps.
pub mod Prelude
pub mod Chain
pub mod Token
pub mod Identity
pub mod Messaging
pub mod Relationships
pub mod Publications
pub mod Communities
pub mod Network
pub mod Registry
pub mod Sponsorship
pub mod Reconcile
pub mod Examples
