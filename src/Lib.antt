-- ===== src/Lib.antt =====
-- A verification library for CAGE, the control plane that decides on the actions of AI agents
-- (backend/app). It models the parts that carry the decision: who may do what (contracts, grants),
-- what is decided (the rules and their resolution), the state that bounds it (quotas, budgets), and
-- the record of what happened (trajectories, the causal graph).
--
-- The parts and how they interact:
--   Enums, Enums/Same, Enums/Trust, Enums/Values: backend/app/schemas/enums.py.
--   Principal: backend/app/identity/principal.py. Action: backend/app/schemas/action.py.
--   Registry: backend/app/gateway/registry.py; `lookup_tool` is `ToolRegistry.get`.
--   Authority: the scopes and envelopes of backend/app/trajectory/models.py.
--   Intent: backend/app/schemas/intent.py. Intent/Narrowing and Intent/Service:
--     backend/app/intent/service.py, with one function for each method and, in Service/Lifecycle,
--     one step for each method that may write.
--   Delegation/Models, Delegation/Proposal: backend/app/delegation/models.py. Delegation/Chain,
--     Delegation/Store and Delegation/Dispatch: backend/app/delegation/store.py.
--     Delegation/Analyzer: backend/app/delegation/analyzer.py. Delegation/Lifecycle: runs of the
--     store. Delegation/Coherence: the analyzer against the store.
--   Policy/Contexts, Policy/Defaults, Policy/Input: backend/app/schemas/policy.py and
--     `build_cage_policy_input` of backend/app/policies/policy_input.py; Policy/DelegationInput: the
--     builders of a delegation context in that file. Policy/ScopeRules and
--     Policy/IntentRules: backend/app/policies/intent_rules.py. Policy/RuntimeRules,
--     Policy/DataRules, Policy/TrajectoryRules, Policy/DelegationRules, Policy/Evaluator:
--     backend/app/policies/rules.py. Policy/Resolver, Policy/Parity, Policy/OpaClient,
--     Policy/Engine: resolver.py, parity.py, opa_client.py and engine.py beside it. Policy/Severity,
--     Policy/Denials, Policy/Safety, Policy/Approval and Policy/Authorized prove what the rules do.
--   Trajectory: the snapshot of backend/app/trajectory/models.py and, below it, the store of
--     backend/app/trajectory/store.py: State and Store (obtaining a trajectory), Methods (one function
--     for each other method), Lifecycle (runs of the store and of the gateway's steps).
--   Graph: backend/app/graph/causal_graph.py (Nodes, Edges, Actions for the methods, Lifecycle for
--     their runs) with the artifact of backend/app/provenance/models.py; Graph/Analyzer:
--     backend/app/graph/analyzer.py.
--   Services/DelegationService: backend/app/delegation/service.py. Propose is `propose_delegation`;
--     Revalidation and Approval are `resolve_delegation_approval`, with `check_root` and what it calls
--     for its numbered checks; Snapshot is `get_delegation_snapshot`.
--   Prelude: shared names, Python's dict, sets, sorted and `==`. Tests: concrete runs.
--
-- The intent service, the stores and the session graphs keep state, which the model passes
-- explicitly; their locks make each method one step. The delegation service holds a store of each and
-- calls the intent service, the evaluator, the delegation store, the trajectory store and the graph in
-- that order; what it changed before an error stays changed. A client asks the policy engine, which asks the evaluator, OPA or
-- both; the evaluator reads the contract, the tool registry and the contexts that the server derives,
-- among them what the delegation analyzer says of a grant.
--
-- Conventions: a UUID is its text. A datetime is a number of ticks, so every one is taken as
-- timezone-aware: the TypeError of comparing a naive deadline with the clock has no counterpart.
-- Whatever reads the clock takes the time as an argument. A check of an approval that refuses says
-- itself whether its return deletes the checkpoint (`del` or `keep`). A set is a list that is read through its membership test. A risk
-- score is a number of hundredths. A reason is the list of the parts that its f-string joins, before
-- they are printed. A raised exception is a value: `err`, or `none` for the evaluator. The warnings
-- of loggers are left out.
--
-- Fuel: two loops follow something that does not get smaller. `get_chain` has max_depth + 2 rounds,
-- enough since each round but the last adds a new grant and the depth is checked in each. The traversal
-- of the graph analyzer has max_depth + 1, since each round goes one deeper and is checked.
--
-- Parameters: what OPA answers and how a finding is validated; NetworkX's `has_path` and its test
-- whether a view is acyclic; the digest of a delegation payload (JSON and SHA-256). A theorem that needs
-- it assumes that these two tests decide whether there is a walk and whether a graph is acyclic;
-- Graph/Search has functions that do. A fresh `uuid4()` is an argument, and a theorem that needs it
-- unused says so.
--
-- Not modelled: the gateway service, the trajectory and provenance analyses, the artifact store and
-- the resource registry, the traversals of the graph that only call NetworkX and its serialization, the
-- HTTP interface, the settings, the attack lab, the Rego policies and the front end.
pub mod Prelude
pub mod Enums
pub mod Principal
pub mod Authority
pub mod Registry
pub mod Action
pub mod Intent
pub mod Delegation
pub mod Trajectory
pub mod Graph
pub mod Policy
pub mod Services
pub mod Tests
