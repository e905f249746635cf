-- ===== src/Delegation/Analyzer/Status.antt =====
-- backend/app/delegation/analyzer.py: the effective status, against the conditions that it sums up.
use cage_agent_security.Prelude.{
  ℕ, ◌<◌, ◌≡◌, ◌↔◌, ◌≢◌, refl, false, none, some, List, [], ◌∷◌, arith,
}
use cage_agent_security.Enums.{DelegationStatus, EffectiveDelegationStatus, IntentStatus}
use cage_agent_security.Intent.{IntentContract, deadline_passed}
use cage_agent_security.Delegation.Models.{DelegationGrant, DelegationRuntimeState}
use cage_agent_security.Delegation.Analyzer.{
  ancestors_verdict, target_verdict, compute_effective_status,
}

-- A grant that may act now: its state is ACTIVE, its time is not over, and it has a slot left.
pub record IsLive (now : ℕ) (g : DelegationGrant) (st : DelegationRuntimeState) : Type 0 where
  pub active : st.status ≡ DelegationStatus.active
  pub in_time : now < g.expires_at
  pub in_budget : st.actions_executed_count < g.max_actions

-- Every ancestor that is paired with a state may act.
abbrev pub AllLive : ℕ → List DelegationGrant → List DelegationRuntimeState → Type 0
AllLive now [] states = Unit {0}
AllLive now (g ∷ gs) [] = Unit {0}
AllLive now (g ∷ gs) (st ∷ states) = IsLive now g st × AllLive now gs states

ancestors_verdict_iff :
    (now : ℕ) (gs : List DelegationGrant) (states : List DelegationRuntimeState)
    → (ancestors_verdict now gs states ≡ none) ↔ AllLive now gs states
unfolding ancestors_verdict
ancestors_verdict_iff now [] states = (λ h. tt, λ h. refl)
ancestors_verdict_iff now (g ∷ gs) [] = (λ h. tt, λ h. refl)
ancestors_verdict_iff now (g ∷ gs) (st ∷ states) = (
  λ h.
      let ih = ancestors_verdict_iff now gs states in
      (
        record { active = ground arith; in_time = ground arith; in_budget = ground arith },
        ih.0 (ground arith),
      ),
  λ h.
      let ih = (ancestors_verdict_iff now gs states).1 h.1 in
      let live = h.0 in ground (arith, live.active, live.in_time, live.in_budget),
)

-- No ancestor hands down ACTIVE as its verdict.
verdict-ne-active :
    (now : ℕ) (gs : List DelegationGrant) (states : List DelegationRuntimeState)
    → ancestors_verdict now gs states ≢ some EffectiveDelegationStatus.active
unfolding ancestors_verdict
verdict-ne-active now [] states = λ e. cc
verdict-ne-active now (g ∷ gs) [] = λ e. cc
verdict-ne-active now (g ∷ gs) (st ∷ states) = ground (arith, verdict-ne-active now gs states)

target_verdict_iff :
    (g : DelegationGrant) (st : DelegationRuntimeState) (now : ℕ)
    → (target_verdict g st now ≡ EffectiveDelegationStatus.active) ↔ IsLive now g st
unfolding target_verdict
target_verdict_iff g st now = (
  λ h. record { active = ground arith; in_time = ground arith; in_budget = ground arith },
  λ live. ground (arith, live.active, live.in_time, live.in_budget),
)

-- The root contract may act.
pub record IsRootLive (now : ℕ) (root : IntentContract) : Type 0 where
  pub active : root.status ≡ IntentStatus.active
  pub in_time : deadline_passed root.expires_at now ≡ false
  pub in_budget : root.tool_calls_count < root.maximum_tool_calls

-- The effective status of a grant is ACTIVE exactly if the root contract, every ancestor and the
-- grant itself are active, in time and within budget.
pub effective_status_iff :
    (g : DelegationGrant) (st : DelegationRuntimeState) (ancestors : List DelegationGrant)
    (states : List DelegationRuntimeState) (root : IntentContract) (now : ℕ)
    → (compute_effective_status g st ancestors states root now ≡ EffectiveDelegationStatus.active)
      ↔ (IsRootLive now root × AllLive now ancestors states × IsLive now g st)
unfolding compute_effective_status
effective_status_iff g st ancestors states root now =
    let above = ancestors_verdict_iff now ancestors states in
    let own = target_verdict_iff g st now in
    let never = verdict-ne-active now ancestors states in
    (
      λ h. (
        record { active = ground arith; in_time = ground arith; in_budget = ground arith },
        above.0 (ground arith),
        own.0 (ground arith),
      ),
      λ (live, all_live, own_live).
          let a = above.1 all_live in
          let o = own.1 own_live in ground (arith, live.active, live.in_time, live.in_budget),
    )
