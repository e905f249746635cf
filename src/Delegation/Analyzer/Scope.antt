-- ===== src/Delegation/Analyzer/Scope.antt =====
-- backend/app/delegation/analyzer.py: delegated authority never exceeds what it is derived from.
use cage_agent_security.Prelude.{◌≡◌, true, String, Option, none, some, List, [], ◌∷◌, arith}
use cage_agent_security.Prelude.Lists.{All}
use cage_agent_security.Prelude.Eq.{string_eq, contains_of_issubset, contains-intersection}
use cage_agent_security.Enums.{AuthorityScopeMode, DataClassification, TargetEnvironment}
use cage_agent_security.Enums.Same.{target_environment_eq, data_classification_eq}
use cage_agent_security.Intent.{IntentContract}
use cage_agent_security.Authority.{
  AuthorityEnvelope, ResourceAuthorityScope, is_allowed, is_tool_allowed, is_resource_allowed,
  is_environment_allowed, is_classification_allowed,
}
use cage_agent_security.Delegation.Models.{DelegationGrant}
use cage_agent_security.Delegation.Analyzer.{
  is_resource_scope_subset, intersect_resource_scopes, narrow_by, narrow_through, root_authority,
  compute_live_effective_authority,
}

-- A scope that passes the subset test allows no resource that its parent does not allow.
pub is_resource_scope_subset_sound :
    (mode : AuthorityScopeMode) (rs : List String) (parent : ResourceAuthorityScope)
    (target : Option String)
    → is_resource_scope_subset mode rs parent ≡ true
    → is_allowed (record { mode = mode; allowed_resources = rs }) target ≡ true
    → is_allowed parent target ≡ true
unfolding is_resource_scope_subset is_allowed
is_resource_scope_subset_sound mode rs parent none h k = ground arith
is_resource_scope_subset_sound mode rs parent (some r) h k = ground (
  arith,
  contains_of_issubset rs parent.allowed_resources r,
  contains_of_issubset rs parent.allowed_resources "*",
)

-- The intersection allows only what both scopes allow.
intersect_sound :
    (p c : ResourceAuthorityScope) (target : Option String)
    → is_allowed (intersect_resource_scopes p c) target ≡ true
    → (is_allowed p target ≡ true) × (is_allowed c target ≡ true)
unfolding intersect_resource_scopes is_allowed
intersect_sound p c none h = (ground arith, ground arith)
intersect_sound p c (some r) h =
    let at = contains-intersection p.allowed_resources c.allowed_resources r in
    let star = contains-intersection p.allowed_resources c.allowed_resources "*" in
    (ground arith, ground arith)

-- One request, allowed in each of the four dimensions.
pub record Permits (e : AuthorityEnvelope) (tool : String) (target : Option String)
    (env : TargetEnvironment) (class : DataClassification) : Type 0 where
  pub tools : is_tool_allowed e tool ≡ true
  pub resources : is_resource_allowed e target ≡ true
  pub environments : is_environment_allowed e env ≡ true
  pub classifications : is_classification_allowed e class ≡ true

module _ (tool : String) (target : Option String) (env : TargetEnvironment)
    (class : DataClassification) where
  abbrev GrantPermits : DelegationGrant → Type 0
  GrantPermits g = Permits g.authority_envelope tool target env class

  narrow_by_sound :
      (e : AuthorityEnvelope) (g : DelegationGrant)
      → Permits (narrow_by e g) tool target env class
      → Permits e tool target env class × GrantPermits g
  unfolding narrow_by is_tool_allowed is_resource_allowed is_environment_allowed
      is_classification_allowed
  narrow_by_sound e g p =
      let t = contains-intersection e.allowed_tools g.authority_envelope.allowed_tools tool in
      let r =
        intersect_sound e.resource_scope g.authority_envelope.resource_scope target p.resources in
      let v =
        contains-intersection e.allowed_environments g.authority_envelope.allowed_environments
          env in
      let c =
        contains-intersection e.allowed_data_classifications
          g.authority_envelope.allowed_data_classifications class in
      (
        record {
          tools = ground arith;
          resources = r.0;
          environments = ground arith;
          classifications = ground arith;
        },
        record {
          tools = ground arith;
          resources = r.1;
          environments = ground arith;
          classifications = ground arith;
        },
      )

  narrow_through_sound :
      (e : AuthorityEnvelope) (gs : List DelegationGrant)
      → Permits (narrow_through e gs) tool target env class
      → Permits e tool target env class × All GrantPermits gs
  unfolding narrow_through
  narrow_through_sound e [] p = (p, tt)
  narrow_through_sound e (g ∷ gs) p =
      let (q, rest) = narrow_through_sound (narrow_by e g) gs p in
      let (r, here) = narrow_by_sound e g q in (r, (here, rest))

-- What the live authority of a grant permits, in tool, resource, environment and classification, is
-- permitted by the allow-lists of the root Intent Contract, by every ancestor and by the grant itself.
-- The denied tools and resources of the contract are not looked at.
pub live_authority_sound :
    (grant : DelegationGrant) (ancestors : List DelegationGrant) (root : IntentContract)
    (tool : String) (target : Option String) (env : TargetEnvironment) (class : DataClassification)
    → Permits (compute_live_effective_authority grant ancestors root) tool target env class
    → Permits (root_authority root) tool target env class
      × All (λ g. Permits g.authority_envelope tool target env class) ancestors
      × Permits grant.authority_envelope tool target env class
unfolding compute_live_effective_authority
live_authority_sound grant ancestors root tool target env class p =
    let (q, own) =
      narrow_by_sound tool target env class (narrow_through (root_authority root) ancestors) grant
        p in
    let (r, above) = narrow_through_sound tool target env class (root_authority root) ancestors q in
    (r, above, own)
