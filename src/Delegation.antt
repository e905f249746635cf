-- ===== src/Delegation.antt =====
-- backend/app/delegation: grants, their store and their analyzer.
pub mod Models
pub mod Chain
pub mod Store
pub mod Dispatch
pub mod Lifecycle
pub mod Analyzer
pub mod Coherence
pub mod Proposal
