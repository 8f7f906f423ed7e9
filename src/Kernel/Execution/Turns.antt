-- ===== src/Kernel/Execution/Turns.antt =====
-- Which end is scheduled when a delayed action takes its turn, src/objects/BaseObject.cpp.
use cosidia.Prelude.{◌≤ℤ◌, true, ◌≡◌, ◌≢◌, List, [], ◌∷◌, ◌++◌, arith, none, some}
use cosidia.Prelude.Result.{ok}
use cosidia.Std.Map.{update_at}
use cosidia.Core.Action.{Ref, duration_action, get_end_time, shift_start_time, get_time}
use cosidia.Objects.ActionHistory.{add_dequeued_action, add_ended_action}
use cosidia.Objects.ActionManager.{
  ActionManager, activate_next_available_action, end_and_check_available,
}
use cosidia.Kernel.{System, update, ◌>>◌}
use cosidia.Kernel.Schedule.{schedule_end_handler}
use cosidia.Kernel.Schedule.Ids.{scheduled, end_of, schedule_end_handler-eq}
use cosidia.Kernel.Execution.{Behaviour, end_execution_base, take_turn}

module _ {X : Type 0} (b : Behaviour X) (o a next : Ref) (rest : List Ref) where
  -- The delayed action has been activated, and starts where `a` ends.
  abbrev pub turned : System X → System X
  turned s =
      let m : ActionManager = record { active_action = some next; delayed_queue = rest } in
      let o1 = update s.objects o (record (s.objects o) { action_manager = m }) in
      let shifted = record (s.actions next) { start_time = get_end_time (s.actions a) } in
      let actions = update s.actions next shifted in
      let o2 = update o1 o (record (o1 o) { current_action = (actions a).action_id }) in
      let o3 = update o2 o (record (o2 o) { history = add_dequeued_action next (o2 o).history }) in
      record s { objects = o3; actions = actions }

  take_turn-turned :
      (ending : Ref → Ref) (s : System X)
      → (s.objects o).action_manager.active_action ≡ none
      → (s.objects o).action_manager.delayed_queue ≡ next ∷ rest
      → (s.actions next).start_time ≤ℤ get_end_time (s.actions a)
      → take_turn b o a ending s
        ≡ (schedule_end_handler (ending next) >> b.start_execution o next) (turned s)
  unfolding take_turn activate_next_available_action shift_start_time
  take_turn-turned ending s free queue late = ground arith

  abbrev freed : System X → System X
  freed s =
      let m : ActionManager = record (s.objects o).action_manager { active_action = none } in
      record s { objects = update s.objects o (record (s.objects o) { action_manager = m }) }

  abbrev pub noted_end : System X → System X
  noted_end s = record s {
    objects =
        update s.objects o
          (record (s.objects o) { history = add_ended_action a (s.objects o).history });
  }

  end_turn :
      (s s1 : System X)
      → (s.actions a).action_id ≡ (s.objects o).current_action
      → b.end_execution o a (noted_end s) ≡ ok (tt, s1)
      → (s1.objects o).action_manager.delayed_queue ≡ next ∷ rest
      → end_execution_base b o a s ≡ take_turn b o a (λ _. a) (freed s1)
  unfolding end_execution_base end_and_check_available
  end_turn s s1 same ran queue = ground arith

  -- What holds of the actions where the ending one leaves the object to the next.
  pub record CanTurn (s : System X) : Type 0 where
    pub other : next ≢ a
    pub on_core : s.on_core_thread ≡ true
    pub queue : (s.objects o).action_manager.delayed_queue ≡ next ∷ rest
    pub late : (s.actions next).start_time ≤ℤ get_end_time (s.actions a)
    pub now : s.current_action_time ≤ℤ get_end_time (s.actions a)

  -- On the core thread an action with a duration and an id ends, which the object has recorded, and
  -- its endExecution returns; another action waits, that starts no later than this end, and the end
  -- is not before the current time. Then the handler that is scheduled is once more the end of the
  -- action that has just ended, at its own end time. The next action runs, and no end is scheduled
  -- for it.
  pub end_execution_base_reschedules :
      (s s1 : System X)
      → (s.actions a).action_id ≡ (s.objects o).current_action
      → b.end_execution o a (noted_end s) ≡ ok (tt, s1)
      → CanTurn s1
      → (s1.actions a).action_class ≡ duration_action
      → (s1.actions a).action_id ≢ 0
      → (t : System X) × (end_execution_base b o a s ≡ b.start_execution o next t)
        × (t.handlers
            ≡ update_at (get_end_time (s1.actions a)) [] (λ hs. hs ++ end_of a ∷ []) s1.handlers)
  unfolding get_time
  end_execution_base_reschedules s s1 same ran can d n = (
    scheduled (end_of a) (turned (freed s1)),
    ground (
      arith,
      end_turn s s1 same ran can.queue,
      take_turn-turned (λ _. a) (freed s1),
      schedule_end_handler-eq a (turned (freed s1)),
    ),
    ground arith,
  )
