-- ===== src/Services/DelegationService.antt =====
-- backend/app/delegation/service.py: the state of the service, what it answers, and how it issues a
-- grant. The lock makes each call one step; a fresh `uuid4()` and each reading of the clock are
-- arguments. NetworkX's `has_path` and the digest of a payload are parameters.
pub mod Payload
pub mod Sync
pub mod Issue
pub mod Propose
pub mod Revalidation
pub mod Approval
pub mod Snapshot
pub mod Outcomes
pub mod Bounds
pub mod UnknownParent
use cage_agent_security.Prelude.{
  ℕ, ◌+◌, ◌-◌, ◌*◌, Bool, true, false, String, Option, none, some, List, [], ◌∷◌, ◌||◌,
}
use cage_agent_security.Prelude.Int.{ℤ, pos, negsuc}
use cage_agent_security.Prelude.Tests.{if◌then◌else◌, leb}
use cage_agent_security.Prelude.Dict.{Dict, get, put}
use cage_agent_security.Prelude.Eq.{string_eq}
use cage_agent_security.Prelude.Sorted.{sorted}
use cage_agent_security.Enums.{
  AuthorityScopeMode, DataClassification, DelegationIssuanceSource, PolicyDecision,
  TargetEnvironment,
}
use cage_agent_security.Enums.Values.{classification_value, environment_value}
use cage_agent_security.Authority.{AuthorityEnvelope}
use cage_agent_security.Principal.{AgentPrincipal}
use cage_agent_security.Registry.{ToolRegistry}
use cage_agent_security.Intent.{IntentContract}
use cage_agent_security.Intent.Service.{IntentService}
use cage_agent_security.Delegation.Models.{
  DelegationGrant, DelegationProposal, DelegationRuntimeState, to_authoritative,
}
use cage_agent_security.Delegation.Chain
use cage_agent_security.Delegation.Chain.{Result, StoreError}
use cage_agent_security.Delegation.Store.{DelegationStore, create_grant}
use cage_agent_security.Trajectory.State.{TrajectoryStore}
use cage_agent_security.Graph.{Edge, CausalExecutionGraph, GraphError, Done, ◌>>=◌}
use cage_agent_security.Graph.Nodes.{
  add_intent_node, add_agent_node, add_delegation_node, add_issues_delegation_edge,
  add_grants_to_edge, add_intent_delegation_governs_edge,
}
use cage_agent_security.Graph.Edges.{add_subdelegates_edge}
use cage_agent_security.Graph.Actions.{SessionGraphManager, get_or_create}
use cage_agent_security.Policy.Rule.{Part}
pub use cage_agent_security.Services.DelegationService.Payload.{HashedPayload}
unfoldable pub use cage_agent_security.Services.DelegationService.Payload.{hashed_payload}

-- A checkpoint of `_pending_approvals`.
pub record PendingApproval : Type 0 where
  pub action_id : String
  pub proposal : DelegationProposal
  pub principal : AgentPrincipal
  pub root_intent_id : String
  pub session_id : String
  pub delegator_agent_id : String
  pub delegatee_agent_id : String
  pub parent_delegation_id : Option String
  pub payload_hash : String
  pub created_at : ℕ

-- The stores that the service works on, and its checkpoints.
pub record DelegationService : Type 0 where
  pub store : DelegationStore
  pub intent_service : IntentService
  pub trajectory_store : TrajectoryStore
  pub graph_manager : SessionGraphManager
  pub pending_approvals : Dict String PendingApproval

-- What does not change: the evaluator's registry and the analyzer's limits.
pub record Settings : Type 0 where
  pub registry : ToolRegistry
  pub max_session_delegation_depth : ℕ
  pub max_session_active_grants : ℕ

pub record DelegationCreateResponse : Type 0 where
  pub decision : PolicyDecision
  pub delegation_id : Option String
  pub delegation_request_id : String
  pub status : String
  pub matched_rules : List String
  pub reasons : List (List Part)

-- What a call raises comes from the store, the graph or the evaluator.
pub data ServiceError : Type 0 where
  from_store : StoreError → ServiceError
  from_graph : GraphError → ServiceError
  evaluator_raised : ServiceError

pub data Reply : Type 0 where
  responded : DelegationCreateResponse → Reply
  raised : ServiceError → Reply

-- A time is a number of microseconds.
abbrev pub seconds : ℕ → ℕ
seconds n = n * 1_000_000

-- `now + timedelta(seconds=ttl)`
abbrev pub expiry : ℕ → ℤ → ℕ
expiry now (pos n) = now + seconds n
expiry now (negsuc n) = now - seconds (n + 1)

abbrev pub smaller : ℕ → ℕ → ℕ
smaller a b = if leb a b then a else b

unfoldable pub capped_actions : DelegationProposal → IntentContract → Option DelegationGrant → ℕ
capped_actions p root none = smaller p.requested_max_actions root.maximum_tool_calls
capped_actions p root (some parent) =
    smaller (smaller p.requested_max_actions parent.max_actions) root.maximum_tool_calls

unfoldable pub depth_below : Option DelegationGrant → ℕ
depth_below none = 1
depth_below (some parent) = parent.depth + 1

unfoldable pub requested_envelope : DelegationProposal → AuthorityEnvelope
requested_envelope p = record {
  allowed_tools = p.requested_tools;
  resource_scope = to_authoritative p.requested_resource_scope;
  allowed_environments = p.requested_environments;
  allowed_data_classifications = p.requested_classifications;
  explanation = [];
}

-- The grant that a proposal comes to; the two callers differ in `remaining` and in who issued it.
unfoldable pub new_grant :
    DelegationProposal
    → IntentContract
    → Option DelegationGrant
    → String
    → String
    → ℕ
    → Option String
    → DelegationIssuanceSource
    → ℕ
    → DelegationGrant
unfolding capped_actions depth_below requested_envelope
new_grant p root parent id action_id remaining mediator source now = record {
  delegation_id = id;
  parent_delegation_id = p.parent_delegation_id;
  root_intent_id = root.intent_id;
  session_id = p.session_id;
  issued_from_action_id = action_id;
  delegator_agent_id = p.delegator_agent_id;
  delegatee_agent_id = p.delegatee_agent_id;
  mediating_principal_id = mediator;
  issuance_source = source;
  delegated_task_id = p.delegated_task_id;
  authority_envelope = requested_envelope p;
  depth = depth_below parent;
  remaining_subdelegation_depth = remaining;
  allow_subdelegation = p.allow_subdelegation;
  max_actions = capped_actions p root parent;
  created_at = now;
  expires_at = expiry now p.requested_ttl_seconds;
}

-- `principal.agent_id if principal.is_control_plane else None`
abbrev pub mediator : AgentPrincipal → Option String
mediator principal = if principal.is_control_plane then some principal.agent_id else none

-- `str(user_id)`
abbrev pub text_of : Option String → String
text_of none = "None"
text_of (some user) = user

-- The nodes of a grant that was stored.
unfoldable pub grant_nodes :
    CausalExecutionGraph → IntentContract → DelegationGrant → ℕ → CausalExecutionGraph
grant_nodes g root grant now =
    let g1 =
      add_intent_node g root.intent_id root.goal root.agent_id (some (text_of root.user_id))
        root.created_at in
    let g2 = add_agent_node g1 grant.delegator_agent_id now in
    let g3 = add_agent_node g2 grant.delegatee_agent_id now in add_delegation_node g3 grant

module _ (has_path : List Edge → String → String → Bool) where
  unfoldable pub subdelegates : Option String → String → CausalExecutionGraph → Done
  subdelegates none child g = (none, g)
  subdelegates (some parent) child g = add_subdelegates_edge has_path g parent child

  -- Then its edges.
  unfoldable pub sync_grant : CausalExecutionGraph → IntentContract → DelegationGrant → ℕ → Done
  unfolding subdelegates
  sync_grant g root grant now =
      add_issues_delegation_edge (grant_nodes g root grant now) grant.delegator_agent_id
        grant.delegation_id now
      >>= (λ g5. add_grants_to_edge g5 grant.delegation_id grant.delegatee_agent_id now)
      >>= (λ g6. add_intent_delegation_governs_edge g6 grant.root_intent_id grant.delegation_id)
      >>= (λ g7. subdelegates grant.parent_delegation_id grant.delegation_id g7)

  unfoldable pub answered : DelegationCreateResponse → Option GraphError → Reply
  answered response none = responded response
  answered response (some e) = raised (from_graph e)

  -- The grant is stored before the graph is brought up to date, and stays if that raises.
  unfoldable pub after_create :
      DelegationService
      → IntentContract
      → DelegationGrant
      → ℕ
      → DelegationCreateResponse
      → Result DelegationGrant × DelegationStore
      → Reply × DelegationService
  unfolding answered sync_grant
  after_create s root grant now response (Chain.err e, store) = (raised (from_store e), s)
  after_create s root grant now response (Chain.ok g, store) =
      let (graph, manager) = get_or_create s.graph_manager grant.session_id in
      let (error, graph') = sync_grant graph root grant now in
      (
        answered response error,
        record s {
          store = store;
          graph_manager = record manager {
            sessions = put manager.sessions grant.session_id graph';
          };
        },
      )

  unfoldable pub issue :
      DelegationService
      → IntentContract
      → DelegationGrant
      → ℕ
      → DelegationCreateResponse
      → Reply × DelegationService
  unfolding after_create
  issue s root grant now response =
      after_create s root grant now response (create_grant s.store grant none)
