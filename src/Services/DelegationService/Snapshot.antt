-- ===== src/Services/DelegationService/Snapshot.antt =====
-- backend/app/delegation/service.py: `get_delegation_snapshot`, and the alias of the approval call.
use cage_agent_security.Prelude.{ℕ, ◌-◌, Bool, String, Option, none, some, List, [], ◌∷◌, ◌||◌}
use cage_agent_security.Prelude.Tests.{if◌then◌else◌}
use cage_agent_security.Prelude.Eq.{◌==◌, string_eq}
use cage_agent_security.Enums.{DelegationStatus, EffectiveDelegationStatus}
use cage_agent_security.Enums.Same.{effective_delegation_status_eq}
use cage_agent_security.Authority.{AuthorityEnvelope}
use cage_agent_security.Intent.{IntentContract}
use cage_agent_security.Intent.Service.{get_intent}
use cage_agent_security.Delegation.Models.{DelegationGrant, DelegationRuntimeState}
use cage_agent_security.Delegation.Chain
use cage_agent_security.Delegation.Chain.{Result, StoreError, default_max_depth}
use cage_agent_security.Delegation.Store.{get_grant, get_runtime_state, get_chain_with_states}
use cage_agent_security.Delegation.Analyzer.{
  compute_effective_status, compute_live_effective_authority,
}
use cage_agent_security.Services.DelegationService.{DelegationService}

pub record DelegationSnapshot : Type 0 where
  pub grant : DelegationGrant
  pub runtime_status : DelegationStatus
  pub effective_status : EffectiveDelegationStatus
  pub actions_executed_count : ℕ
  pub remaining_actions_count : ℕ
  pub is_active : Bool
  pub live_effective_authority : AuthorityEnvelope

-- `xs[:-1]`
butlast {ℓ} : {A : Type ℓ} → List A → List A
butlast [] = []
butlast (x ∷ []) = []
butlast (x ∷ y ∷ ys) = x ∷ butlast (y ∷ ys)

snapshot_of :
    DelegationGrant
    → DelegationRuntimeState
    → IntentContract
    → List DelegationGrant
    → List DelegationRuntimeState
    → ℕ
    → DelegationSnapshot
snapshot_of grant state root ancestors ancestor_states now =
    let status = compute_effective_status grant state ancestors ancestor_states root now in
    record {
      grant = grant;
      runtime_status = state.status;
      effective_status = status;
      actions_executed_count = state.actions_executed_count;
      remaining_actions_count = grant.max_actions - state.actions_executed_count;
      is_active = status == EffectiveDelegationStatus.active;
      live_effective_authority = compute_live_effective_authority grant ancestors root;
    }

-- The error is what reading the chain raises.
abbrev snapshot_with :
    DelegationGrant
    → DelegationRuntimeState
    → ℕ
    → Option IntentContract
    → Result (List DelegationGrant × List DelegationRuntimeState)
    → Result (Option DelegationSnapshot)
snapshot_with grant state now none chain = Chain.ok none
snapshot_with grant state now (some root) (Chain.err e) = Chain.err e
snapshot_with grant state now (some root) (Chain.ok (grants, states)) =
    Chain.ok (some (snapshot_of grant state root (butlast grants) (butlast states) now))

unfoldable pub get_delegation_snapshot :
    DelegationService → String → ℕ → ℕ → Result (Option DelegationSnapshot) × DelegationService
unfolding snapshot_of butlast
get_delegation_snapshot s id looked_up now = elim (get_grant s.store id) [
  | none ↦ (Chain.ok none, s)
  | some grant ↦ elim (get_runtime_state s.store id) [
    | none ↦ (Chain.ok none, s)
    | some state ↦
        let (root, intents) = get_intent s.intent_service grant.root_intent_id looked_up in
        (
          snapshot_with grant state now root (get_chain_with_states s.store id default_max_depth),
          record s { intent_service = intents },
        )
  ]
]

-- What a caller may pass as the decision.
pub data ApprovalDecision : Type 0 where
  flag : Bool → ApprovalDecision
  text : String → ApprovalDecision

-- `decision in ("APPROVED", PolicyDecision.ALLOW, True)`
unfoldable pub decision_text : ApprovalDecision → String
decision_text (flag approves) = if approves then "APPROVED" else "REJECTED"
decision_text (text d) = if d == "APPROVED" || d == "ALLOW" then "APPROVED" else "REJECTED"
