-- ===== src/Intent/Service/Sessions.antt =====
-- What holds over every run of backend/app/intent/service.py: quotas, final revocations, and one
-- active contract for each session.
use mathlib.Core.Path.{subst}
use text.Mathlib.TextEquality.{eq_iff}
use native.Mathlib.Nat.{le_trans}
use cage_agent_security.Prelude.{
  ℕ, ◌≤◌, ◌≡◌, ◌≢◌, ◌∙◌, refl, ap, inl, inr, true, false, String, none, some, arith,
}
use cage_agent_security.Prelude.Tests.{if◌then◌else◌, Bool-cases, Option-cases}
use cage_agent_security.Prelude.Dict.{get, get-put}
use cage_agent_security.Prelude.Eq.{◌==◌, ==-refl, string_eq}
use cage_agent_security.Enums.{IntentStatus}
use cage_agent_security.Intent.{IntentContract, is_active}
use cage_agent_security.Intent.Narrowing.Sound.{narrow_contract-Passed, quota_lem, deadline_lem}
use cage_agent_security.Intent.{IntentContractNarrow}
use cage_agent_security.Intent.Result.{err, inactive_intent}
use cage_agent_security.Intent.Service.{
  IntentService, empty_service, set_intent, bound_contract, refreshed, reserve_tool_execution,
  narrow_intent, revoke_intent,
}
use cage_agent_security.Intent.Service.Lifecycle.{
  IntentStep, Change, same, expire, mark, narrowed, used, Changed, Created, step-cases,
}

-- A run whose steps happen at times that do not fall.
pub data Run (s : IntentService) : ℕ → IntentService → Type 0 where
  start : (t : ℕ) → Run s t s
  next :
      {t : ℕ} {u : IntentService} {t' : ℕ} {u' : IntentService}
      → Run s t u
      → t ≤ t'
      → IntentStep u t' u'
      → Run s t' u'

abbrev pub WithinQuota : IntentService → Type 0
WithinQuota s =
    (id : String) (c : IntentContract)
    → get s.intents id ≡ some c
    → c.tool_calls_count ≤ c.maximum_tool_calls

Change-quota :
    {now : ℕ} {c c' : IntentContract}
    → Change now c c'
    → c.tool_calls_count ≤ c.maximum_tool_calls
    → c'.tool_calls_count ≤ c'.maximum_tool_calls
unfolding refreshed
Change-quota same h = h
Change-quota (expire dead alive) h = ground arith
Change-quota (mark reason) h = h
Change-quota {now} {c} (narrowed n live e) h =
    let p = narrow_contract-Passed c n now e in
    let q = quota_lem c.maximum_tool_calls c.tool_calls_count n.maximum_tool_calls h p.quota in
    let (_, _, _, _, count) = p.binding in rw count q.0
Change-quota (used live room) h = ground arith

Created-get :
    {s : IntentService} {now : ℕ} {s' : IntentService} (new : Created s now s') (id : String)
    → get s'.intents id
      ≡ (if new.contract.intent_id == id then some new.contract else get s.intents id)
Created-get {s} new id =
    ap (λ u. get u.intents id) new.result ∙ get-put s.intents new.contract.intent_id id new.contract

Created-session :
    {s : IntentService} {now : ℕ} {s' : IntentService} (new : Created s now s')
    (session_id : String)
    → get s'.session_to_intent session_id ≡ (
        if new.contract.session_id == session_id
        then some new.contract.intent_id
        else get s.session_to_intent session_id)
Created-session {s} new session_id =
    ap (λ u. get u.session_to_intent session_id) new.result
    ∙ get-put s.session_to_intent new.contract.session_id session_id new.contract.intent_id

step-WithinQuota :
    {s : IntentService} {now : ℕ} {s' : IntentService}
    → IntentStep s now s'
    → WithinQuota s
    → WithinQuota s'
step-WithinQuota st w id c' e = elim (step-cases st) [
  | inl changed ↦ let (c, e0, change) = changed.intents id c' e in Change-quota change (w id c e0)
  | inr new ↦
      let stored = Created-get new id in
      elim (Bool-cases (new.contract.intent_id == id)) [
        | inl eq ↦
            let is : new.contract ≡ c' = ground (arith, stored) in
            subst (λ c. c.tool_calls_count ≤ c.maximum_tool_calls) is (ground (arith, new.unused))
        | inr ne ↦ w id c' (ground (arith, stored))
      ]
]

-- In every state that the service reaches from its start, no stored contract has been used more
-- often than its maximum allows, even if the maximum was narrowed in between.
pub quota_never_exceeded : (t : ℕ) (s : IntentService) → Run empty_service t s → WithinQuota s
unfolding get
quota_never_exceeded t s (start _) = λ id c e. absurd (ground arith)
quota_never_exceeded t s (next run le st) = step-WithinQuota st (quota_never_exceeded _ _ run)

-- A revoked contract stays revoked.
Change-revoked :
    {now : ℕ} {c c' : IntentContract}
    → Change now c c'
    → c.status ≡ IntentStatus.revoked
    → c'.status ≡ IntentStatus.revoked
unfolding is_active
Change-revoked same h = h
Change-revoked (expire dead alive) h = cc
Change-revoked (mark reason) h = refl
Change-revoked (narrowed n live e) h = ground arith
Change-revoked (used live room) h = h

-- What is active after a change was active before it.
Change-active :
    {now : ℕ} {c c' : IntentContract} (t : ℕ)
    → now ≤ t
    → Change now c c'
    → is_active c' t ≡ true
    → is_active c t ≡ true
unfolding is_active refreshed
Change-active t le same h = h
Change-active t le (expire dead alive) h = ground arith
Change-active t le (mark reason) h = cc
Change-active {now} {c} t le (narrowed n live e) h =
    let p = narrow_contract-Passed c n now e in
    let (_, _, _, status, _) = p.binding in
    ground (arith, deadline_lem c.expires_at n.expires_at n.expires_at_set t p.deadline)
Change-active t le (used live room) h = h

Change-session : {now : ℕ} {c c' : IntentContract} → Change now c c' → c'.session_id ≡ c.session_id
unfolding refreshed
Change-session same = refl
Change-session (expire dead alive) = ground arith
Change-session (mark reason) = refl
Change-session {now} {c} (narrowed n live e) = (narrow_contract-Passed c n now e).binding.1
Change-session (used live room) = refl

-- A contract that is not active will not be.
inactive_later :
    (c : IntentContract) (now t : ℕ) → now ≤ t → is_active c now ≡ false → is_active c t ≡ false
unfolding is_active
inactive_later c now t le h = ground arith

-- The id is taken, by a contract that is revoked.
abbrev pub Barred : IntentService → String → Type 0
Barred s id =
    (get s.intents id ≢ none)
    × ((c : IntentContract) → get s.intents id ≡ some c → c.status ≡ IntentStatus.revoked)

step-Barred :
    {s : IntentService} {now : ℕ} {s' : IntentService} (id : String)
    → IntentStep s now s'
    → Barred s id
    → Barred s' id
step-Barred id st (taken, w) = elim (step-cases st) [
  | inl changed ↦ (
    λ e. taken (changed.kept id e),
    λ c' e. let (c, e0, change) = changed.intents id c' e in Change-revoked change (w c e0),
  )
  | inr new ↦
      let stored = Created-get new id in
      let other : (new.contract.intent_id == id) ≡ false =
        ground (arith, new.fresh, eq_iff new.contract.intent_id id) in
      (ground arith, λ c' e. w c' (ground arith))
]

Run-Barred :
    {s : IntentService} {t : ℕ} {s' : IntentService} (id : String)
    → Run s t s'
    → Barred s id
    → Barred s' id
Run-Barred id (start t) b = b
Run-Barred id (next run le st) b = step-Barred id st (Run-Barred id run b)

Barred-refused :
    (s : IntentService) (id : String) (now : ℕ) (n : IntentContractNarrow)
    → Barred s id
    → (reserve_tool_execution s id now ≡ (false, s))
      × (narrow_intent s id n now ≡ (err (inactive_intent id), s))
unfolding reserve_tool_execution narrow_intent is_active
Barred-refused s id now n (taken, w) = elim (Option-cases (get s.intents id)) [
  | inl e ↦ absurd (taken e)
  | inr (c, e) ↦
      let r = w c e in
      let dead : is_active c now ≡ false = ground arith in
      (rw (e, reserve_tool_execution, dead) refl, rw (e, narrow_intent, dead) refl)
]

set-Barred :
    (s : IntentService) (id : String) (c : IntentContract)
    → c.status ≡ IntentStatus.revoked
    → Barred (set_intent s id c) id
set-Barred s id c e = (
  λ h. ground (arith, get-put s.intents id id c, eq_iff id id),
  λ c' h.
      let is : c ≡ c' = ground (arith, get-put s.intents id id c, eq_iff id id) in
      subst (λ x. x.status ≡ IntentStatus.revoked) is e,
)

revoke-Barred :
    (s : IntentService) (id reason : String) (now : ℕ) (c : IntentContract)
    → get s.intents id ≡ some c
    → Barred (revoke_intent s id reason now).1 id
unfolding revoke_intent
revoke-Barred s id reason now c e = rw (e, revoke_intent) (set-Barred s id _ refl)

-- After `revoke_intent` on a contract that is stored, and after every run of steps that follows, at
-- whatever time: no tool execution is reserved for it, it is not narrowed, and neither attempt
-- changes the state.
pub revoked_is_final :
    (s : IntentService) (id reason : String) (now : ℕ) (c : IntentContract) (t : ℕ)
    (s' : IntentService)
    → get s.intents id ≡ some c
    → Run (revoke_intent s id reason now).1 t s'
    → (later : ℕ) (n : IntentContractNarrow)
    → (reserve_tool_execution s' id later ≡ (false, s'))
      × (narrow_intent s' id n later ≡ (err (inactive_intent id), s'))
revoked_is_final s id reason now c t s' e run later n =
    Barred-refused s' id later n (Run-Barred id run (revoke-Barred s id reason now c e))

-- From `t` on, a contract that is active is the one its session is bound to.
abbrev pub Bound : ℕ → IntentService → Type 0
Bound t s =
    (later : ℕ)
    → t ≤ later
    → (id : String) (c : IntentContract) → get s.intents id ≡ some c
    → is_active c later ≡ true
    → get s.session_to_intent c.session_id ≡ some id

Changed-Bound :
    {s : IntentService} {now : ℕ} {s' : IntentService}
    → Changed s now s'
    → Bound now s
    → Bound now s'
Changed-Bound changed w later le id c' e live =
    let (c, e0, change) = changed.intents id c' e in
    rw (changed.sessions, Change-session change)
      (w later le id c e0 (Change-active later le change live))

Created-Bound :
    {s : IntentService} {now : ℕ} {s' : IntentService}
    → Created s now s'
    → Bound now s
    → Bound now s'
unfolding bound_contract
Created-Bound {s} {now} {s'} new w later le id c' e live =
    elim (Bool-cases (new.contract.intent_id == id)) [
      | inl eq ↦
          let is : new.contract ≡ c' = ground (arith, Created-get new id) in
          let self = ==-refl new.contract.session_id in
          subst (λ c. get s'.session_to_intent c.session_id ≡ some id) is
            (ground (
              arith,
              Created-session new new.contract.session_id,
              eq_iff new.contract.intent_id id,
            ))
      | inr ne ↦
          let e0 : get s.intents id ≡ some c' = ground (arith, Created-get new id) in
          let before = w later le id c' e0 live in
          elim (Bool-cases (new.contract.session_id == c'.session_id)) [
            | inl eq ↦
                let at : get s.session_to_intent new.contract.session_id ≡ some id =
                  ap (get s.session_to_intent) ((eq_iff new.contract.session_id c'.session_id).0 eq)
                  ∙ before in
                let dead = new.free c' (rw (at, bound_contract) e0) in
                absurd (ground (arith, inactive_later c' now later le dead))
            | inr other ↦ ground (arith, Created-session new c'.session_id)
          ]
    ]

Run-Bound : {t : ℕ} {s : IntentService} → Run empty_service t s → Bound t s
unfolding get
Run-Bound (start t) = λ later le id c e live. absurd (ground arith)
Run-Bound (next run le st) =
    let w : Bound _ _ =
      λ later le' id c e live. Run-Bound run later (le_trans le le') id c e live in
    elim (step-cases st) [ inl changed ↦ Changed-Bound changed w | inr new ↦ Created-Bound new w ]

-- In every state that the service reaches from its start, by steps at times that do not fall: two
-- contracts that are stored for one session and are both active, at the last step's time or later,
-- are under one id.
pub one_active_per_session :
    (t : ℕ) (s : IntentService) (later : ℕ) (id j : String) (c d : IntentContract)
    → Run empty_service t s
    → t ≤ later
    → get s.intents id ≡ some c
    → get s.intents j ≡ some d
    → c.session_id ≡ d.session_id
    → is_active c later ≡ true
    → is_active d later ≡ true
    → id ≡ j
one_active_per_session t s later id j c d run le e f same_session live_c live_d =
    let a = Run-Bound run later le id c e live_c in
    let b = Run-Bound run later le j d f live_d in
    let both : get s.session_to_intent c.session_id ≡ some j =
      ap (get s.session_to_intent) same_session ∙ b in
    ground arith
