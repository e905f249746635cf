-- ===== src/Enums/Trust.antt =====
-- backend/app/schemas/enums.py: how a trust score becomes a provenance origin. The untyped inputs
-- are their strings, as the function itself reads them.
use cage_agent_security.Prelude.{
  ◌≡◌, ◌⊎◌, Bool, true, false, String, Option, none, some, ◌||◌, ◌&&◌, not, ◌↔◌, inl, inr, sym,
  arith,
}
use cage_agent_security.Prelude.Tests.{if◌then◌else◌, Bool-cases}
use cage_agent_security.Prelude.Eq.{◌==◌, string_eq}
use mathlib.Core.Path.{subst}
use text.Mathlib.TextEquality.{eq_iff}
use cage_agent_security.Enums.{ProvenanceTrust}

-- `ProvenanceTrust(raw_val)`, with its `ValueError` caught.
parse_trust : String → ProvenanceTrust
parse_trust raw =
    if raw == "TRUSTED_HUMAN"
    then ProvenanceTrust.trusted_human
    else if raw == "TRUSTED_SYSTEM"
    then ProvenanceTrust.trusted_system
    else if raw == "INTERNAL_TRUSTED"
    then ProvenanceTrust.internal_trusted
    else if raw == "EXTERNAL_UNTRUSTED"
    then ProvenanceTrust.external_untrusted
    else if raw == "AGENT_DERIVED"
    then ProvenanceTrust.agent_derived
    else ProvenanceTrust.unknown

-- `src_val == s`, where `src_val` may be `None`.
abbrev pub source_is : Option String → String → Bool
source_is none s = false
source_is (some v) s = v == s

unfoldable pub normalize_to_provenance_trust : String → Option String → Bool → ProvenanceTrust
unfolding parse_trust
normalize_to_provenance_trust raw source is_trusted_human_origin =
    if is_trusted_human_origin || source_is source "HUMAN_INPUT"
    then ProvenanceTrust.trusted_human
    else if source_is source "EXTERNAL_CONTENT"
    then ProvenanceTrust.external_untrusted
    else if raw == "LOW" || raw == "MEDIUM" || raw == "HIGH"
    then ProvenanceTrust.unknown
    else if raw == "VERIFIED_HUMAN"
    then (if is_trusted_human_origin
        then ProvenanceTrust.trusted_human
        else ProvenanceTrust.unknown)
    else if raw == "UNTRUSTED"
    then (if source_is source "EXTERNAL_CONTENT"
        then ProvenanceTrust.external_untrusted
        else ProvenanceTrust.unknown)
    else parse_trust raw

-- A legacy score.
abbrev pub IsLegacy : String → Type 0
IsLegacy raw =
    (raw ≡ "LOW")
    ⊎ (raw ≡ "MEDIUM")
    ⊎ (raw ≡ "HIGH")
    ⊎ (raw ≡ "VERIFIED_HUMAN")
    ⊎ (raw ≡ "UNTRUSTED")

-- The canonical origin that a score may name, and every other string.
abbrev pub HumanOrigin : String → Option String → Bool → Type 0
HumanOrigin raw source human =
    (normalize_to_provenance_trust raw source human ≡ ProvenanceTrust.trusted_human) ↔ (
      (human
        || source_is source "HUMAN_INPUT"
        || (raw == "TRUSTED_HUMAN" && not (source_is source "EXTERNAL_CONTENT")))
      ≡ true)

named : (source : Option String) (human : Bool) → HumanOrigin "TRUSTED_HUMAN" source human
unfolding normalize_to_provenance_trust
named source human = ground arith

unnamed :
    (raw : String) (source : Option String) (human : Bool)
    → (raw == "TRUSTED_HUMAN") ≡ false
    → HumanOrigin raw source human
unfolding normalize_to_provenance_trust
unnamed raw source human h = ground arith

-- Only human ingestion, or an explicit canonical origin that no external source contradicts, is
-- normalized to TRUSTED_HUMAN; a legacy score, VERIFIED_HUMAN included, never is.
pub normalize-trusted_human_iff :
    (raw : String) (source : Option String) (human : Bool)
    → (normalize_to_provenance_trust raw source human ≡ ProvenanceTrust.trusted_human) ↔ (
        (human
          || source_is source "HUMAN_INPUT"
          || (raw == "TRUSTED_HUMAN" && not (source_is source "EXTERNAL_CONTENT")))
        ≡ true)
normalize-trusted_human_iff raw source human = elim (Bool-cases (raw == "TRUSTED_HUMAN")) [
  | inl e ↦
      subst (λ r. HumanOrigin r source human) (sym ((eq_iff raw "TRUSTED_HUMAN").0 e))
        (named source human)
  | inr ne ↦ unnamed raw source human ne
]

-- A legacy score with no authoritative source says nothing of the origin.
pub normalize_legacy :
    (raw : String) (source : Option String)
    → IsLegacy raw
    → source_is source "HUMAN_INPUT" ≡ false
    → source_is source "EXTERNAL_CONTENT" ≡ false
    → normalize_to_provenance_trust raw source false ≡ ProvenanceTrust.unknown
unfolding normalize_to_provenance_trust
normalize_legacy raw source legacy h k = ground (
  arith,
  eq_iff raw "LOW",
  eq_iff raw "MEDIUM",
  eq_iff raw "HIGH",
  eq_iff raw "VERIFIED_HUMAN",
  eq_iff raw "UNTRUSTED",
)
