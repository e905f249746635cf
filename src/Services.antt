-- ===== src/Services.antt =====
-- The services of backend/app that join the stores, the analyzers and the policy evaluator.
pub mod DelegationService
