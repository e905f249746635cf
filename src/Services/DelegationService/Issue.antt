-- ===== src/Services/DelegationService/Issue.antt =====
-- backend/app/delegation/service.py: how storing a grant and recording it in the session graph ends.
use mathlib.Core.Path.{subst}
use cage_agent_security.Prelude.{
  ◌≡◌, ◌∙◌, inl, inr, ℕ, refl, ap, Bool, String, none, some, List, arith,
}
use cage_agent_security.Prelude.Tests.{Option-cases}
use cage_agent_security.Prelude.Dict.{get, get-put}
use cage_agent_security.Prelude.Eq.{string_eq, ==-refl}
use cage_agent_security.Intent.{IntentContract}
use cage_agent_security.Delegation.Models.{DelegationGrant}
use cage_agent_security.Delegation.Chain.{already_exists}
use cage_agent_security.Delegation.Store.{create_grant, insert_grant}
use cage_agent_security.Graph.{Edge, GraphError}
use cage_agent_security.Graph.Actions.{get_or_create}
use cage_agent_security.Services.DelegationService.{
  DelegationService, DelegationCreateResponse, Reply, responded, raised, from_store, from_graph,
  issue, after_create, answered, sync_grant,
}

-- The grant is stored, under an id that was free.
pub record Stored (s s' : DelegationService) (grant : DelegationGrant) : Type 0 where
  pub free : get s.store.grants grant.delegation_id ≡ none
  pub kept : get s'.store.grants grant.delegation_id ≡ some grant

-- The id was taken and nothing changed; or the grant was stored, and the call answered, or raised what
-- the graph raised.
pub data IssueEnds (s : DelegationService) (grant : DelegationGrant)
    (response : DelegationCreateResponse) (reply : Reply) (s' : DelegationService) : Type 0 where
  collided :
      (old : DelegationGrant)
      → get s.store.grants grant.delegation_id ≡ some old
      → reply ≡ raised (from_store (already_exists grant.delegation_id))
      → s' ≡ s
      → IssueEnds s grant response reply s'
  answers :
      reply ≡ responded response
      → Stored s s' grant
      → s'.pending_approvals ≡ s.pending_approvals
      → IssueEnds s grant response reply s'
  unrecorded :
      (e : GraphError)
      → reply ≡ raised (from_graph e)
      → Stored s s' grant
      → s'.pending_approvals ≡ s.pending_approvals
      → IssueEnds s grant response reply s'

module _ (has_path : List Edge → String → String → Bool) (s : DelegationService)
    (root : IntentContract) (grant : DelegationGrant) (now : ℕ)
    (response : DelegationCreateResponse) where
  issue-reply :
      get s.store.grants grant.delegation_id ≡ none
      → (issue has_path s root grant now response).0
        ≡ answered has_path response
            (sync_grant has_path
              (get_or_create s.graph_manager grant.session_id).0
              root
              grant
              now).0
  unfolding issue after_create create_grant
  issue-reply free = rw (free, after_create) refl

  fresh-Stored :
      get s.store.grants grant.delegation_id ≡ none
      → Stored s (issue has_path s root grant now response).1 grant
  unfolding issue after_create create_grant insert_grant
  fresh-Stored free = record {
    free = free;
    kept =
        rw (free, after_create)
          (ground (
            arith,
            get-put s.store.grants grant.delegation_id grant.delegation_id grant,
            ==-refl grant.delegation_id,
          ));
  }

  fresh-checkpoints :
      get s.store.grants grant.delegation_id ≡ none
      → (issue has_path s root grant now response).1.pending_approvals ≡ s.pending_approvals
  unfolding issue after_create create_grant
  fresh-checkpoints free = rw (free, after_create) refl

  pub issue-IssueEnds :
      let after = issue has_path s root grant now response in
      IssueEnds s grant response after.0 after.1
  unfolding issue after_create create_grant answered
  issue-IssueEnds = elim (Option-cases (get s.store.grants grant.delegation_id)) [
    | inr (old, e) ↦ collided old e (rw (e, after_create) refl) (rw (e, after_create) refl)
    | inl free ↦
        elim (Option-cases
          (sync_grant has_path (get_or_create s.graph_manager grant.session_id).0 root grant
            now).0) [
              | inl fine ↦
                  answers (issue-reply free ∙ ap (answered has_path response) fine)
                    (fresh-Stored free) (fresh-checkpoints free)
              | inr (e, refused) ↦
                  unrecorded e (issue-reply free ∙ ap (answered has_path response) refused)
                    (fresh-Stored free) (fresh-checkpoints free)
            ]
  ]

IssueEnds-Stored :
    (s s' : DelegationService) (grant : DelegationGrant) (response r : DelegationCreateResponse)
    (reply : Reply)
    → IssueEnds s grant response reply s'
    → reply ≡ responded r
    → Stored s s' grant × (r ≡ response)
IssueEnds-Stored s s' grant response r reply (collided old taken raises same) h = absurd (cc)
IssueEnds-Stored s s' grant response r reply (answers responds stored same) h = (stored, cc)
IssueEnds-Stored s s' grant response r reply (unrecorded e raises stored same) h = absurd (cc)

-- A call that answered has stored the grant.
pub issue-Stored :
    (has_path : List Edge → String → String → Bool) (s s' : DelegationService)
    (root : IntentContract) (grant : DelegationGrant) (now : ℕ)
    (response r : DelegationCreateResponse)
    → issue has_path s root grant now response ≡ (responded r, s')
    → Stored s s' grant × (r ≡ response)
issue-Stored has_path s s' root grant now response r h =
    IssueEnds-Stored s s' grant response r (responded r)
      (subst (λ x. IssueEnds s grant response x.0 x.1) h
        (issue-IssueEnds has_path s root grant now response))
      refl
