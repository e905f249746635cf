-- ===== src/Tests.antt =====
-- The theorems at concrete inputs, and runs of the definitions.
mod Sample
mod Delegations
mod Trust
mod Intents
mod Policies
mod Grants
mod Opa
mod Services
mod Trajectories
mod Graphs
