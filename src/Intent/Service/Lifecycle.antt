-- ===== src/Intent/Service/Lifecycle.antt =====
-- backend/app/intent/service.py as a state machine: one step for each method that may write.
use mathlib.Core.Path.{subst}
use text.Mathlib.TextEquality.{eq_iff}
use cage_agent_security.Prelude.{
  ℕ, ◌+◌, ◌≡◌, ◌⊎◌, ◌∙◌, refl, sym, ap, inl, inr, true, false, ◌&&◌, String, none, some, arith,
}
use cage_agent_security.Prelude.Tests.{leb, Bool-cases, Option-cases}
use cage_agent_security.Prelude.Dict.{get, put, get-put}
use cage_agent_security.Prelude.Eq.{◌==◌, string_eq}
use cage_agent_security.Enums.{IntentStatus}
use cage_agent_security.Enums.Same.{intent_status_eq}
use cage_agent_security.Intent.{
  IntentContract, IntentContractCreate, IntentContractNarrow, is_active, from_create,
  deadline_passed,
}
use cage_agent_security.Intent.Result.{Result, ok, err}
use cage_agent_security.Intent.Narrowing.{narrow_contract}
use cage_agent_security.Intent.Service.{
  IntentService, set_intent, bound_contract, create_intent, refreshed, get_intent,
  get_intent_for_session, revoke_intent, narrow_intent, write_back, reserve_tool_execution,
}

-- Each step happens at a time. A created id is new, as `uuid4` makes it.
pub data IntentStep (s : IntentService) (now : ℕ) : IntentService → Type 0 where
  create :
      (req : IntentContractCreate) (id : String)
      → get s.intents id ≡ none
      → IntentStep s now (create_intent s req id now).1
  read : (id : String) → IntentStep s now (get_intent s id now).1
  read_session :
      (session_id : String) → IntentStep s now (get_intent_for_session s session_id now).1
  revoke : (id reason : String) → IntentStep s now (revoke_intent s id reason now).1
  narrow : (id : String) (n : IntentContractNarrow) → IntentStep s now (narrow_intent s id n now).1
  reserve : (id : String) → IntentStep s now (reserve_tool_execution s id now).1

-- What a step other than `create` does to the contract under one id.
pub data Change (now : ℕ) (c : IntentContract) : IntentContract → Type 0 where
  same : Change now c c
  expire : is_active c now ≡ false → c.status ≡ IntentStatus.active → Change now c (refreshed c now)
  mark :
      (reason : String)
      → Change now c (record c {
        status = IntentStatus.revoked;
        revoked_reason = some reason;
        updated_at = now;
      })
  narrowed :
      {c' : IntentContract} (n : IntentContractNarrow)
      → is_active c now ≡ true
      → narrow_contract c n now ≡ ok c'
      → Change now c c'
  used :
      is_active c now ≡ true
      → leb c.maximum_tool_calls c.tool_calls_count ≡ false
      → Change now c (record c { tool_calls_count = c.tool_calls_count + 1; updated_at = now })

-- One contract changed, and the bindings of the sessions kept.
pub record Changed (s : IntentService) (now : ℕ) (s' : IntentService) : Type 0 where
  pub sessions : s'.session_to_intent ≡ s.session_to_intent
  pub intents :
      (id : String) (c' : IntentContract)
      → get s'.intents id ≡ some c'
      → (c : IntentContract) × (get s.intents id ≡ some c) × Change now c c'
  pub kept : (id : String) → get s'.intents id ≡ none → get s.intents id ≡ none

Changed-refl : (s : IntentService) (now : ℕ) → Changed s now s
Changed-refl s now = record { sessions = refl; intents = λ id c e. (c, e, same); kept = λ id e. e }

Changed-set :
    (s : IntentService) (now : ℕ) (id : String) (c c1 : IntentContract)
    → get s.intents id ≡ some c
    → Change now c c1
    → Changed s now (set_intent s id c1)
Changed-set s now id c c1 e change = record {
  sessions = refl;
  intents = λ j c' e'. elim (Bool-cases (id == j)) [
    | inl eq ↦
        let is : c1 ≡ c' = ground (arith, get-put s.intents id j c1) in
        (c, ap (get s.intents) (sym ((eq_iff id j).0 eq)) ∙ e, subst (Change now c) is change)
    | inr ne ↦ (c', ground (arith, get-put s.intents id j c1), same)
  ];
  kept = λ j e'. ground (arith, get-put s.intents id j c1);
}

late_inactive :
    (c : IntentContract) (now : ℕ)
    → (c.status == IntentStatus.active && deadline_passed c.expires_at now) ≡ true
    → is_active c now ≡ false
unfolding is_active
late_inactive c now h = ground arith

late_active :
    (c : IntentContract) (now : ℕ)
    → (c.status == IntentStatus.active && deadline_passed c.expires_at now) ≡ true
    → c.status ≡ IntentStatus.active
late_active c now h = ground arith

get-Changed : (s : IntentService) (id : String) (now : ℕ) → Changed s now (get_intent s id now).1
unfolding get_intent
get-Changed s id now = elim (Option-cases (get s.intents id)) [
  | inl e ↦ rw (e, get_intent) (Changed-refl s now)
  | inr (c, e) ↦
      elim (Bool-cases (c.status == IntentStatus.active && deadline_passed c.expires_at now)) [
        | inl late ↦
            rw (e, get_intent, late)
              (Changed-set s now id c (refreshed c now) e
                (expire (late_inactive c now late) (late_active c now late)))
        | inr fine ↦ rw (e, get_intent, fine) (Changed-refl s now)
      ]
]

session-Changed :
    (s : IntentService) (session_id : String) (now : ℕ)
    → Changed s now (get_intent_for_session s session_id now).1
unfolding get_intent_for_session
session-Changed s session_id now = elim (Option-cases (get s.session_to_intent session_id)) [
  | inl e ↦ rw (e, get_intent_for_session) (Changed-refl s now)
  | inr (id, e) ↦ rw (e, get_intent_for_session) (get-Changed s id now)
]

revoke-Changed :
    (s : IntentService) (id reason : String) (now : ℕ)
    → Changed s now (revoke_intent s id reason now).1
unfolding revoke_intent
revoke-Changed s id reason now = elim (Option-cases (get s.intents id)) [
  | inl e ↦ rw (e, revoke_intent) (Changed-refl s now)
  | inr (c, e) ↦ rw (e, revoke_intent) (Changed-set s now id c _ e (mark reason))
]

write-Changed :
    (s : IntentService) (id : String) (n : IntentContractNarrow) (now : ℕ) (c : IntentContract)
    (r : Result IntentContract)
    → get s.intents id ≡ some c
    → is_active c now ≡ true
    → narrow_contract c n now ≡ r
    → Changed s now (write_back s id r).1
unfolding narrow_intent
write-Changed s id n now c (ok c') e live h = Changed-set s now id c c' e (narrowed n live h)
write-Changed s id n now c (err x) e live h = Changed-refl s now

narrow-Changed :
    (s : IntentService) (id : String) (n : IntentContractNarrow) (now : ℕ)
    → Changed s now (narrow_intent s id n now).1
unfolding narrow_intent
narrow-Changed s id n now = elim (Option-cases (get s.intents id)) [
  | inl e ↦ rw (e, narrow_intent) (Changed-refl s now)
  | inr (c, e) ↦ elim (Bool-cases (is_active c now)) [
    | inl live ↦
        rw (e, narrow_intent, live)
          (write-Changed s id n now c (narrow_contract c n now) e live refl)
    | inr dead ↦ rw (e, narrow_intent, dead) (Changed-refl s now)
  ]
]

reserve-Changed :
    (s : IntentService) (id : String) (now : ℕ) → Changed s now (reserve_tool_execution s id now).1
unfolding reserve_tool_execution
reserve-Changed s id now = elim (Option-cases (get s.intents id)) [
  | inl e ↦ rw (e, reserve_tool_execution) (Changed-refl s now)
  | inr (c, e) ↦ elim (Bool-cases (is_active c now)) [
    | inr dead ↦ rw (e, reserve_tool_execution, dead) (Changed-refl s now)
    | inl live ↦ elim (Bool-cases (leb c.maximum_tool_calls c.tool_calls_count)) [
      | inl full ↦ rw (e, reserve_tool_execution, live, full) (Changed-refl s now)
      | inr room ↦
          rw (e, reserve_tool_execution, live, room) (Changed-set s now id c _ e (used live room))
    ]
  ]
]

-- A contract that was stored by `create_intent`.
pub record Created (s : IntentService) (now : ℕ) (s' : IntentService) : Type 0 where
  pub contract : IntentContract
  pub fresh : get s.intents contract.intent_id ≡ none
  pub unused : contract.tool_calls_count ≡ 0
  pub alive : contract.status ≡ IntentStatus.active
  pub free :
      (b : IntentContract) → bound_contract s contract.session_id ≡ some b → is_active b now ≡ false
  pub result : s' ≡ record {
    intents = put s.intents contract.intent_id contract;
    session_to_intent = put s.session_to_intent contract.session_id contract.intent_id;
  }

create-cases :
    (s : IntentService) (req : IntentContractCreate) (id : String) (now : ℕ)
    → get s.intents id ≡ none
    → Changed s now (create_intent s req id now).1 ⊎ Created s now (create_intent s req id now).1
unfolding create_intent from_create
create-cases s req id now fresh = elim (Option-cases (bound_contract s req.session_id)) [
  | inl e ↦
      rw (e, create_intent)
        (inr (record {
          contract = from_create req id now;
          fresh = fresh;
          unused = refl;
          alive = refl;
          free = λ b e'. absurd (ground arith);
          result = refl;
        }))
  | inr (b, e) ↦ elim (Bool-cases (is_active b now)) [
    | inl live ↦ rw (e, create_intent, live) (inl (Changed-refl s now))
    | inr dead ↦
        rw (e, create_intent, dead)
          (inr (record {
            contract = from_create req id now;
            fresh = fresh;
            unused = refl;
            alive = refl;
            free = λ b' e'. ground arith;
            result = refl;
          }))
  ]
]

-- Every step changes one contract in one of the known ways, or stores a new one.
pub step-cases :
    {s : IntentService} {now : ℕ} {s' : IntentService}
    → IntentStep s now s'
    → Changed s now s' ⊎ Created s now s'
step-cases {s} {now = now} (create req id fresh) = create-cases s req id now fresh
step-cases {s} {now = now} (read id) = inl (get-Changed s id now)
step-cases {s} {now = now} (read_session session_id) = inl (session-Changed s session_id now)
step-cases {s} {now = now} (revoke id reason) = inl (revoke-Changed s id reason now)
step-cases {s} {now = now} (narrow id n) = inl (narrow-Changed s id n now)
step-cases {s} {now = now} (reserve id) = inl (reserve-Changed s id now)
