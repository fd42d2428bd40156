-- ===== src/Nodepol.antt =====
-- internal/nodepol: NodeNetworkPolicies rendered into the table.
pub mod Types
pub mod Match
pub mod Add
pub mod Chains
pub mod Jumping
pub mod Outcome
pub mod Placed
pub mod Placing
pub mod Deciding
