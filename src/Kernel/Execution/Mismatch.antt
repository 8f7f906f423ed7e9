-- ===== src/Kernel/Execution/Mismatch.antt =====
-- The check of endExecutionBase in src/objects/BaseObject.cpp against the id that the action was
-- started with.
use cosidia.Prelude.{◌+◌, ◌≤◌, false, ◌≡◌, arith, some}
use cosidia.Prelude.Result.{ok, err, runtime_error}
use cosidia.Core.Action.{Ref, duration_action}
use cosidia.Objects.ActionHistory.{add_started_action}
use cosidia.Objects.ActionManager.{ActionManager, new_manager, start_or_delay}
use cosidia.Kernel.{System, update, >>=-eq-ok}
use cosidia.Kernel.Schedule.{schedule_end_handler}
use cosidia.Kernel.Schedule.Ids.{schedule_end_handler_inv}
use cosidia.Kernel.Execution.{Behaviour, start_execution_base, end_execution_base, start_now}

module _ {X : Type 0} (b : Behaviour X) where
  -- startExecution leaves the bookkeeping of the object and of the action to BaseObject. All
  -- subclasses of the repository do: they hand the action to a fiber.
  abbrev pub KeepsBookkeeping : Type 0
  KeepsBookkeeping =
      (o a : Ref) (s s' : System X)
      → b.start_execution o a s ≡ ok (tt, s')
      → ((s'.actions a).action_id ≡ (s.actions a).action_id)
        × ((s'.objects o).current_action ≡ (s.objects o).current_action)

  -- The object has recorded the action and its id.
  abbrev recorded : Ref → Ref → System X → System X
  recorded o a s =
      let current =
        update s.objects o (record (s.objects o) { current_action = (s.actions a).action_id }) in
      record s {
        objects =
            update current o
              (record (current o) { history = add_started_action a (current o).history });
      }

  start_now_ids :
      (keeps : KeepsBookkeeping) (o a : Ref) (s s' : System X)
      → (s.actions a).action_class ≡ duration_action
      → start_now b o a s ≡ ok (tt, s')
      → ((s'.actions a).action_id ≡ s.current_action_id + 1)
        × ((s'.objects o).current_action ≡ (s.actions a).action_id)
  unfolding start_now
  start_now_ids keeps o a s s' d e =
      let (_, t, e1, e2) =
        >>=-eq-ok (schedule_end_handler a) (λ _. b.start_execution o a) (recorded o a s) e in
      let h = schedule_end_handler_inv a (recorded o a s) t d e1 in
      let k = keeps o a t s' e2 in ground arith

  -- The object has begun the start of the action, which it runs at once.
  abbrev entered : Ref → Ref → System X → System X
  entered o a s =
      let o1 = update s.objects o (record (s.objects o) { first_action = false }) in
      let o2 = update o1 o (record (o1 o) { history = add_started_action a (o1 o).history }) in
      let m : ActionManager = record (o2 o).action_manager { active_action = some a } in
      record s { objects = update o2 o (record (o2 o) { action_manager = m }) }

  start_execution_base_now :
      (o a : Ref) (s s' : System X)
      → (s.objects o).action_manager ≡ new_manager
      → start_execution_base b o a s ≡ ok (tt, s')
      → start_now b o a (entered o a s) ≡ ok (tt, s')
  unfolding start_execution_base start_or_delay
  start_execution_base_now o a s s' idle e = ground arith

  -- An object that runs nothing starts an action with a duration, and this does not throw; ids that
  -- were given are not above the counter, and startExecution leaves the action's id and the
  -- object's record of it. However the run goes on, if it leaves these two, then the end of the
  -- action throws: the id was overwritten when the end was scheduled.
  pub end_after_start_throws :
      (keeps : KeepsBookkeeping) (o a : Ref) (s s' t : System X)
      → (s.actions a).action_class ≡ duration_action
      → (s.actions a).action_id ≤ s.current_action_id
      → (s.objects o).action_manager ≡ new_manager
      → start_execution_base b o a s ≡ ok (tt, s')
      → (t.actions a).action_id ≡ (s'.actions a).action_id
      → (t.objects o).current_action ≡ (s'.objects o).current_action
      → end_execution_base b o a t ≡ err (runtime_error "BaseObject: Action ends wrong action")
  unfolding end_execution_base
  end_after_start_throws keeps o a s s' t d old idle e same_id same_current =
      let (new_id, current) =
        start_now_ids keeps o a (entered o a s) s' d (start_execution_base_now o a s s' idle e) in
      ground arith
