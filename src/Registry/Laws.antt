-- ===== src/Registry/Laws.antt =====
-- backend/app/gateway/registry.py: what a client cannot leave out.
use cage_agent_security.Prelude.{
  ◌≡◌, ◌↔◌, ◌⊎◌, inl, inr, true, String, Option, none, some, List, arith,
}
use cage_agent_security.Prelude.Tests.{Bool-cases}
use cage_agent_security.Prelude.Eq.{contains, contains-add}
use cage_agent_security.Enums.{DataClassification}
use cage_agent_security.Enums.Same.{data_classification_eq}
use cage_agent_security.Registry.{
  ToolRegistry, lookup_tool, get_effective_classifications, with_default,
}

default_lem :
    (declared : List DataClassification) (default : Option DataClassification)
    (c : DataClassification)
    → (contains (with_default declared default) c ≡ true)
      ↔ ((contains declared c ≡ true) ⊎ (default ≡ some c))
default_lem declared none c =
    (λ h. inl h, λ h. elim h [ inl k ↦ k | inr k ↦ absurd (ground arith) ])
default_lem declared (some x) c = (
  λ h. elim (Bool-cases (contains declared c)) [
    | inl k ↦ inl k
    | inr k ↦ inr (ground (arith, contains-add declared x c, data_classification_eq.equals_iff x c))
  ],
  λ h. elim h [
    | inl k ↦ ground (arith, contains-add declared x c)
    | inr k ↦ ground (arith, contains-add declared x c, data_classification_eq.equals_iff x c)
  ],
)

-- The effective classifications of a use of a tool are those that the client declares and the one
-- that the server knows of the tool, and no others.
pub effective_classifications_iff :
    (registry : ToolRegistry) (tool : String) (declared : List DataClassification)
    (c : DataClassification)
    → (contains (get_effective_classifications registry tool declared) c ≡ true) ↔ (
        (contains declared c ≡ true)
        ⊎ ((lookup_tool registry tool).default_classification ≡ some c))
unfolding get_effective_classifications
effective_classifications_iff registry tool declared c =
    default_lem declared (lookup_tool registry tool).default_classification c
