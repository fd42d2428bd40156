-- ===== src/Nftables.antt =====
-- internal/nftables: the table as a value, its text, its skeleton, the names in it, and its applier.
pub mod Ruleset
pub mod Params
pub mod Validate
pub mod Families
pub mod Chains
pub mod Render
pub mod Identifier
pub mod Applier
pub mod Verdicts
