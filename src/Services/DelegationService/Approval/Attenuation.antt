-- ===== src/Services/DelegationService/Approval/Attenuation.antt =====
-- backend/app/delegation/service.py: what an approval that issues a grant has established.
use text.Mathlib.TextEquality.{eq_iff}
use cage_agent_security.Prelude.{
  ℕ, ◌+◌, ◌≤◌, ◌<◌, ◌≡◌, refl, Bool, true, false, String, Option, List, [], ◌∷◌, arith,
}
use cage_agent_security.Prelude.Eq.{issubset, contains_of_issubset, string_eq}
use cage_agent_security.Prelude.Lists.{All}
use cage_agent_security.Enums.{DataClassification, TargetEnvironment}
use cage_agent_security.Enums.Same.{
  delegation_status_eq, target_environment_eq, data_classification_eq,
}
use cage_agent_security.Authority.{
  AuthorityEnvelope, is_allowed, is_tool_allowed, is_resource_allowed, is_environment_allowed,
  is_classification_allowed,
}
use cage_agent_security.Intent.{IntentContract}
use cage_agent_security.Delegation.Models.{
  DelegationGrant, DelegationProposal, DelegationRuntimeState, to_authoritative,
}
use cage_agent_security.Delegation.Analyzer.{
  compute_live_effective_authority, is_resource_scope_subset,
}
use cage_agent_security.Delegation.Analyzer.Scope.{is_resource_scope_subset_sound}
use cage_agent_security.Delegation.Analyzer.Status.{AllLive}
use cage_agent_security.Services.DelegationService.{Settings, requested_envelope}
use cage_agent_security.Services.DelegationService.Revalidation.{
  Checkpoint, Refusal, Verdict, approved, require, last_grant, all_but_last, check_parent,
  check_ancestors, check_permissions, check_chain,
}

-- A check that was passed.
pub require-approved :
    (holds : Bool) (checkpoint : Checkpoint) (refusal : Refusal) (rest : Verdict)
    (root : IntentContract) (parent : Option DelegationGrant)
    → require holds checkpoint refusal rest ≡ approved root parent
    → (holds ≡ true) × (rest ≡ approved root parent)
unfolding require
require-approved true checkpoint refusal rest root parent h = (refl, h)
require-approved false checkpoint refusal rest root parent h = absurd (cc)

-- The requested authority allows nothing that the live authority does not.
pub record Within (live requested : AuthorityEnvelope) : Type 0 where
  pub tools :
      (tool : String) → is_tool_allowed requested tool ≡ true → is_tool_allowed live tool ≡ true
  pub resources :
      (target : Option String)
      → is_resource_allowed requested target ≡ true
      → is_resource_allowed live target ≡ true
  pub environments :
      (env : TargetEnvironment)
      → is_environment_allowed requested env ≡ true
      → is_environment_allowed live env ≡ true
  pub classifications :
      (c : DataClassification)
      → is_classification_allowed requested c ≡ true
      → is_classification_allowed live c ≡ true

authoritative_sound :
    (live : AuthorityEnvelope) (p : DelegationProposal) (target : Option String)
    → is_resource_scope_subset p.requested_resource_scope.mode
        p.requested_resource_scope.allowed_resources live.resource_scope
      ≡ true
    → is_allowed (to_authoritative p.requested_resource_scope) target ≡ true
    → is_allowed live.resource_scope target ≡ true
unfolding to_authoritative is_allowed
authoritative_sound live p target h k =
    is_resource_scope_subset_sound p.requested_resource_scope.mode
      p.requested_resource_scope.allowed_resources live.resource_scope target h (ground arith)

requested-Within :
    (live : AuthorityEnvelope) (p : DelegationProposal)
    → issubset p.requested_tools live.allowed_tools ≡ true
    → is_resource_scope_subset p.requested_resource_scope.mode
        p.requested_resource_scope.allowed_resources live.resource_scope
      ≡ true
    → issubset p.requested_environments live.allowed_environments ≡ true
    → issubset p.requested_classifications live.allowed_data_classifications ≡ true
    → Within live (requested_envelope p)
unfolding is_tool_allowed is_resource_allowed is_environment_allowed is_classification_allowed
    requested_envelope
requested-Within live p tools resources environments classes = record {
  tools = λ tool h. contains_of_issubset p.requested_tools live.allowed_tools tool tools h;
  resources = λ target h. authoritative_sound live p target resources h;
  environments = λ env h.
      contains_of_issubset p.requested_environments live.allowed_environments env environments h;
  classifications = λ c h.
      contains_of_issubset p.requested_classifications live.allowed_data_classifications c classes
        h;
}

-- The chain above a new grant, as it stands when the grant is issued.
pub record ParentHolds (settings : Settings) (p : DelegationProposal) (root : IntentContract)
    (now : ℕ) (g : DelegationGrant) (gs : List DelegationGrant)
    (states : List DelegationRuntimeState) : Type 0 where
  pub live_chain : AllLive now (g ∷ gs) states
  pub permitted : All (λ a. a.allow_subdelegation ≡ true) (all_but_last g gs)
  pub parent_permits : (last_grant g gs).allow_subdelegation ≡ true
  pub depth_left : 0 < (last_grant g gs).remaining_subdelegation_depth
  pub depth_bound : (last_grant g gs).depth + 1 ≤ settings.max_session_delegation_depth
  pub within :
      Within
        (compute_live_effective_authority (last_grant g gs) (all_but_last g gs) root)
        (requested_envelope p)
  pub actions_bound : p.requested_max_actions ≤ (last_grant g gs).max_actions

module _ (root : IntentContract) (parent : Option DelegationGrant) where
  check_ancestors-approved :
      (p : DelegationProposal) (r : IntentContract) (now : ℕ) (gs : List DelegationGrant)
      (states : List DelegationRuntimeState) (rest : Verdict)
      → check_ancestors p r now gs states rest ≡ approved root parent
      → AllLive now gs states × (rest ≡ approved root parent)
  unfolding check_ancestors
  check_ancestors-approved p r now [] states rest h = (tt, h)
  check_ancestors-approved p r now (g ∷ gs) [] rest h = (tt, h)
  check_ancestors-approved p r now (g ∷ gs) (st ∷ states) rest h =
      let (bound, h1) = require-approved _ _ _ _ root parent h in
      let (active, h2) = require-approved _ _ _ _ root parent h1 in
      let (in_time, h3) = require-approved _ _ _ _ root parent h2 in
      let (in_budget, h4) = require-approved _ _ _ _ root parent h3 in
      let (live, h5) = check_ancestors-approved p r now gs states rest h4 in
      (
        (
          record {
            active = ground (arith, active);
            in_time = ground (arith, in_time);
            in_budget = ground (arith, in_budget);
          },
          live,
        ),
        h5,
      )

  check_permissions-approved :
      (gs : List DelegationGrant) (rest : Verdict)
      → check_permissions gs rest ≡ approved root parent
      → All (λ a. a.allow_subdelegation ≡ true) gs × (rest ≡ approved root parent)
  unfolding check_permissions
  check_permissions-approved [] rest h = (tt, h)
  check_permissions-approved (g ∷ gs) rest h =
      let (allowed, h1) = require-approved _ _ _ _ root parent h in
      let (above, h2) = check_permissions-approved gs rest h1 in ((allowed, above), h2)

  pub check_chain-approved :
      (settings : Settings) (p : DelegationProposal) (r : IntentContract) (now : ℕ)
      (parent_id : String) (gs : List DelegationGrant) (states : List DelegationRuntimeState)
      (rest : DelegationGrant → Verdict)
      → check_chain settings p r now parent_id gs states rest ≡ approved root parent
      → (g : DelegationGrant) × (tail : List DelegationGrant) × (gs ≡ g ∷ tail)
        × ((last_grant g tail).delegation_id ≡ parent_id)
        × ParentHolds settings p r now g tail states
        × (rest (last_grant g tail) ≡ approved root parent)
  unfolding check_chain
  check_chain-approved settings p r now parent_id [] states rest h = absurd (cc)
  check_chain-approved settings p r now parent_id (g ∷ gs) states rest h =
      let (nonempty, h1) = require-approved _ _ _ _ root parent h in
      let (top, h2) = require-approved _ _ _ _ root parent h1 in
      let (links, h3) = require-approved _ _ _ _ root parent h2 in
      let (terminal, h4) = require-approved _ _ _ _ root parent h3 in
      let (live, h5) = check_ancestors-approved p r now (g ∷ gs) states _ h4 in
      let (permitted, h6) = check_permissions-approved (all_but_last g gs) _ h5 in
      let (own, h7) = require-approved _ _ _ _ root parent (unfold check_parent in h6) in
      let (depth, h8) = require-approved _ _ _ _ root parent h7 in
      let (tools, h9) = require-approved _ _ _ _ root parent h8 in
      let (resources, h10) = require-approved _ _ _ _ root parent h9 in
      let (environments, h11) = require-approved _ _ _ _ root parent h10 in
      let (classes, h12) = require-approved _ _ _ _ root parent h11 in
      let (actions, h13) = require-approved _ _ _ _ root parent h12 in
      let (expires, h14) = require-approved _ _ _ _ root parent h13 in
      (
        g,
        gs,
        refl,
        (eq_iff (last_grant g gs).delegation_id parent_id).0 terminal,
        record {
          live_chain = live;
          permitted = permitted;
          parent_permits = ground (arith, own);
          depth_left = ground (arith, own);
          depth_bound = ground (arith, depth);
          within =
              requested-Within
                (compute_live_effective_authority (last_grant g gs) (all_but_last g gs) r) p tools
                resources environments classes;
          actions_bound = ground (arith, actions);
        },
        h14,
      )
