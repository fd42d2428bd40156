-- ===== src/Netpol.antt =====
-- internal/netpol: NetworkPolicies rendered into the table.
pub mod Types
pub mod Match
pub mod Sets
pub mod Peers
pub mod Ports
pub mod Policy
pub mod Add
pub mod Frame
pub mod Accepting
pub mod Isolating
pub mod Filling
pub mod Dispatching
pub mod Ending
pub mod Standing
pub mod Opening
