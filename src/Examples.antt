-- ===== src/Examples.antt =====
-- Runs of the contracts on concrete inputs.
pub mod Mock
mod TokenRuns
mod IdentityRuns
mod MessagingRuns
mod RegistryRuns
mod OtherRuns
mod RelationshipRuns
mod CommunityRuns
mod PublicationRuns
mod NetworkRuns
