-- ===== src/Tests/Trajectories.antt =====
-- backend/app/trajectory/store.py at concrete stores.
use cage_agent_security.Prelude.{◌≡◌, ◌↔◌, inl, refl, true, false, none, some, [], ◌∷◌}
use cage_agent_security.Prelude.Int.{pos}
use cage_agent_security.Prelude.Dict.{get, put}
use cage_agent_security.Prelude.Eq.{string_eq}
use cage_agent_security.Enums.{TrajectoryStatus}
use cage_agent_security.Trajectory.State.{
  TrajectoryState, TrajectoryStore, OwnershipKey, empty_trajectories, ownership_equals,
  ownership_eq,
}
use cage_agent_security.Trajectory.Store.{
  register_trajectory, get_or_create_trajectory, effective_agent, intent_key, root_envelope,
  fresh_trajectory,
}
use cage_agent_security.Trajectory.Methods.{
  record_sensitive_egress_attempt, set_pending_approval, validate_continuation,
}
use cage_agent_security.Trajectory.Lifecycle.{
  Valid, attempted, by_gateway, here, next, obtained, suspended,
}
use cage_agent_security.Trajectory.Lifecycle.Invariant.{reachable-Valid}
use cage_agent_security.Trajectory.Lifecycle.Quarantine.{StaysBlocked, quarantine_holds}
use cage_agent_security.Trajectory.Continuation.{continuation_accepted_iff}
use cage_agent_security.Tests.Sample.{contract}

abbrev owner_key : OwnershipKey
owner_key = intent_key contract none

abbrev opened : TrajectoryState
opened = fresh_trajectory "t" owner_key (root_envelope contract) 1

abbrev one_trajectory : TrajectoryStore
one_trajectory = (get_or_create_trajectory empty_trajectories "t" contract none 1).1

one_trajectory-found : get one_trajectory.trajectories "t" ≡ some opened
unfolding get_or_create_trajectory get put effective_agent register_trajectory
one_trajectory-found = refl

-- A trajectory that was obtained, tried to send data twice and waits for an approval.
abbrev waiting_store : TrajectoryStore
waiting_store =
    (set_pending_approval
      (record_sensitive_egress_attempt
        (record_sensitive_egress_attempt one_trajectory "t" "x" (pos 7) 2).1 "t" "x" (pos 9) 3).1
      "t" "x" 4).1

no_trajectory : get empty_trajectories.trajectories "t" ≡ none
unfolding get
no_trajectory = refl

reachable-Valid_example : Valid waiting_store
reachable-Valid_example = reachable-Valid waiting_store (
    next
      (next
        (next (next here (by_gateway (obtained "t" contract none 1 no_trajectory)))
          (by_gateway (attempted "t" "x" (pos 7) 2)))
        (by_gateway (attempted "t" "x" (pos 9) 3)))
      (by_gateway (suspended "t" "x" 4)))

abbrev blocked : TrajectoryState
blocked = record opened { status = TrajectoryStatus.quarantined; updated_at = 5 }

abbrev blocked_store : TrajectoryStore
blocked_store = record {
  trajectories = ("t", blocked) ∷ [];
  ownership_index = (owner_key, "t") ∷ [];
}

blocked-indexed : get blocked_store.ownership_index owner_key ≡ some "t"
unfolding get ownership_equals effective_agent
blocked-indexed = refl

blocked-found : get blocked_store.trajectories "t" ≡ some blocked
unfolding get
blocked-found = refl

quarantine_holds_example :
    StaysBlocked owner_key "t" (get_or_create_trajectory blocked_store "u" contract none 9).1
quarantine_holds_example =
    quarantine_holds blocked_store (get_or_create_trajectory blocked_store "u" contract none 9).1
      owner_key "t" blocked blocked-indexed blocked-found refl (inl refl)
      (next here (obtained "u" contract none 9 (unfold get in refl)))

continuation_accepted_iff_example :
    ((st : TrajectoryState)
      → get one_trajectory.trajectories "t" ≡ some st
      → ((validate_continuation one_trajectory "t" "x" 2 none).0.0 ≡ true)
        ↔ ((st.status ≡ TrajectoryStatus.active) × (none ≡ st.last_action_id)))
    × (get one_trajectory.trajectories "t" ≡ none
        → (validate_continuation one_trajectory "t" "x" 2 none).0.0 ≡ false)
continuation_accepted_iff_example = continuation_accepted_iff one_trajectory "t" "x" none 2
