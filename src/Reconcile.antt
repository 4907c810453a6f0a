-- ===== src/Reconcile.antt =====
-- packages/sdk/src/reconcile.ts: the record of a cross-post attempt and its transition function.
pub mod Attempt
pub mod Transition
pub mod Runs
