-- ===== src/Policy.antt =====
-- backend/app/policies/ and backend/app/schemas/policy.py: how one action is decided.
pub mod Contexts
pub mod Rule
pub mod Severity
pub mod Denials
pub mod Safety
pub mod Authorized
pub mod Approval
pub mod ScopeRules
pub mod IntentRules
pub mod Defaults
pub mod RuntimeRules
pub mod DataRules
pub mod TrajectoryRules
pub mod DelegationRules
pub mod Evaluator
pub mod Input
pub mod DelegationInput
pub mod Resolver
pub mod Parity
pub mod OpaClient
pub mod Engine
