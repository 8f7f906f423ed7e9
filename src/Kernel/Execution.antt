-- ===== src/Kernel/Execution.antt =====
-- startExecutionBase, endExecutionBase and initObjectBase of src/objects/BaseObject.cpp. The
-- virtual methods of the subclasses are the fields of a `Behaviour`.
pub mod Keeps
pub mod Mismatch
pub mod Turns
use cosidia.Prelude.{ℤ, ℕ, ◌==◌, Bool, true, false, not, ◌||◌, List, String, if◌then◌else◌}
use cosidia.Prelude.Result.{Result, ok, enforce}
use cosidia.Core.Action.{
  Ref, Action, ActionClass, duration_action, get_end_time, shift_start_time, Handler, HandlerKind,
  start_handler, end_handler, init_handler,
}
use cosidia.Core.Clock.{TimePoint, Duration}
use cosidia.Objects.Object.{BaseObject, is_initialized}
use cosidia.Objects.ActionManager.{
  start_or_delay, end_and_check_available, activate_next_available_action,
}
use cosidia.Objects.ActionHistory.{
  ActionHistory, add_started_action, add_ended_action, add_delayed_action, add_dequeued_action,
  add_init_action,
}
use cosidia.Kernel.{System, M, pure, ◌>>=◌, ◌>>◌, get, lift, set_action, set_object}
use cosidia.Kernel.Schedule.{make_action, schedule_end_handler}

-- The pure virtual methods of BaseObject, at an object and an action.
pub record Behaviour (X : Type 0) : Type 0 where
  pub start_execution : Ref → Ref → M X (Unit {0})
  pub end_execution : Ref → Ref → M X (Unit {0})
  pub init_object : Ref → Ref → M X (Unit {0})

module _ {X : Type 0} where
  -- createSelfAction
  unfoldable pub create_self_action : Ref → Duration → TimePoint → M X Ref
  create_self_action o duration start = do
    s ← get
    let id = (s.objects o).object_id
    make_action duration_action duration start id id

  -- A write to the history of an object.
  abbrev pub note : Ref → (ActionHistory → ActionHistory) → M X (Unit {0})
  note o f = do s ← get; set_object o (record (s.objects o) { history = f (s.objects o).history })

  abbrev pub set_current_action : Ref → ℕ → M X (Unit {0})
  set_current_action o id = do s ← get; set_object o (record (s.objects o) { current_action = id })

  -- mActionManager->startOrDelay
  abbrev pub manage_start : Ref → Ref → M X Bool
  manage_start o a = do
    s ← get
    (m, delayed) ← lift (start_or_delay a (s.objects o).action_manager)
    set_object o (record (s.objects o) { action_manager = m })
    pure delayed

  -- mActionManager->endAndCheckAvailable
  abbrev pub manage_end : Ref → M X Bool
  manage_end o = do
    s ← get
    let (m, available) = end_and_check_available (s.objects o).action_manager
    set_object o (record (s.objects o) { action_manager = m })
    pure available

  -- mActionManager->activateNextAvailableAction
  abbrev pub manage_next : Ref → M X Ref
  manage_next o = do
    s ← get
    (m, a) ← lift (activate_next_available_action (s.objects o).action_manager)
    set_object o (record (s.objects o) { action_manager = m })
    pure a

  module _ (b : Behaviour X) where
    start_now : Ref → Ref → M X (Unit {0})
    start_now o a = do
      s ← get
      set_current_action o (s.actions a).action_id
      note o (add_started_action a)
      schedule_end_handler a
      b.start_execution o a

    unfoldable pub start_execution_base : Ref → Ref → M X (Unit {0})
    unfolding start_now
    start_execution_base o a = do
      s ← get
      initialized ← lift (is_initialized (s.objects o))
      lift (enforce initialized "Tried to execute a not initialized object")
      lift (
          enforce (not ((s.objects o).current_action == 0) || (s.objects o).first_action)
            "BaseObject: last action was not ended")
      set_object o (record (s.objects o) { first_action = false })
      note o (add_started_action a)
      delayed ← manage_start o a
      if delayed then note o (add_delayed_action a) else start_now o a

    -- The delayed action takes its turn where `a` ends: `ending` is the action whose end handler is
    -- scheduled then.
    take_turn : Ref → Ref → (Ref → Ref) → M X (Unit {0})
    take_turn o a ending = do
      next ← manage_next o
      s ← get
      shifted ← lift (shift_start_time (get_end_time (s.actions a)) (s.actions next))
      set_action next shifted
      s ← get
      set_current_action o (s.actions a).action_id
      note o (add_dequeued_action next)
      schedule_end_handler (ending next)
      b.start_execution o next

    unfoldable pub end_execution_base : Ref → Ref → M X (Unit {0})
    unfolding take_turn
    end_execution_base o a = do
      note o (add_ended_action a)
      s ← get
      lift (
          enforce ((s.actions a).action_id == (s.objects o).current_action)
            "BaseObject: Action ends wrong action")
      b.end_execution o a
      available ← manage_end o
      if available then take_turn o a (λ _. a) else pure tt

    init_now : Ref → Ref → M X (Unit {0})
    unfolding take_turn
    init_now o a = do
      s ← get
      set_current_action o (s.actions a).action_id
      note o (add_init_action a)
      b.init_object o a
      available ← manage_end o
      if available then take_turn o a (λ next. next) else pure tt

    unfoldable pub init_object_base : Ref → Ref → M X (Unit {0})
    unfolding init_now
    init_object_base o a = do
      delayed ← manage_start o a
      if delayed then note o (add_delayed_action a) else init_now o a

    -- The virtual ActionHandler::invoke.
    unfoldable pub invoke : HandlerKind → Ref → Ref → M X (Unit {0})
    unfolding start_execution_base end_execution_base init_object_base
    invoke start_handler a o = start_execution_base o a
    invoke end_handler a o = end_execution_base o a
    invoke init_handler a o = init_object_base o a
