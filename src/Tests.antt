-- ===== src/Tests.antt =====
-- Runs of the models, and each property at values where its hypotheses hold.
pub mod Data
pub mod Policies
pub mod Parts
pub mod Kernel
pub mod Host
pub mod Outside
pub mod Reconcilers
pub mod Openings
pub mod Hosts
pub mod Daemons
