-- ===== src/Kernel/Schedule.antt =====
-- The operations of src/core/Core.cpp that objects call, and the scheduling of
-- src/core/DurationAction.cpp and src/core/InitAction.cpp.
pub mod Ids
pub mod Late
use cosidia.Prelude.{
  ℤ, ℕ, suc, ◌+◌, ◌==◌, Bool, true, false, not, Option, some, List, [], ◌∷◌, String, if◌then◌else◌,
}
use cosidia.Prelude.Result.{Result, ok, err, enforce}
use cosidia.Core.Clock.{TimePoint, Duration}
use cosidia.Core.StateMachine.{State, set_running, set_finished}
use cosidia.Core.Action.{
  Ref, ObjectId, Action, ActionClass, duration_action, init_action, Handler, HandlerKind,
  start_handler, end_handler, init_handler, get_time, set_action_id, create,
}
use cosidia.Core.ActionList.{HandlerMap, insert_handler, remove_handler}
use cosidia.Objects.Container.{
  ContainerPtr, get_current_object_container, add_to_object_container, add_unique,
  remove_from_simulation,
}
use cosidia.Objects.Container
use cosidia.Objects.Object.{is_initialized}
use cosidia.Kernel.{
  System, Core, M, pure, ◌>>=◌, ◌>>◌, get, put, lift, update, set_action, set_core,
}

module _ {X : Type 0} where
  -- A handler's virtual getTime(), at the present state of its action.
  abbrev pub time_of : System X → Handler → TimePoint
  time_of s h = get_time h.kind (s.actions h.action)

  unfoldable pub get_next_object_id : M X ObjectId
  unfolding Container.get_next_object_id
  get_next_object_id = do
    s ← get
    lift (enforce s.on_core_thread "Core: Object ID's must be fetched from core!")
    let (l, id) = Container.get_next_object_id s.object_list
    set_core (record s.core { object_list = l })
    pure id

  unfoldable pub get_next_action_id : M X ℕ
  get_next_action_id = do
    s ← get
    lift (enforce s.on_core_thread "Core: Action ID's must be fetched from core!")
    set_core (record s.core { current_action_id = s.current_action_id + 1 })
    pure (s.current_action_id + 1)

  unfoldable pub schedule_action : Handler → M X (Unit {0})
  unfolding get_next_action_id
  schedule_action h = do
    id ← get_next_action_id
    s ← get
    set_action h.action (set_action_id id (s.actions h.action))
    s ← get
    m ← lift (insert_handler s.on_core_thread s.current_action_time (time_of s) h s.handlers)
    set_core (record s.core { handlers = m })

  unfoldable pub add_object : Ref → M X (Unit {0})
  add_object o = do
    s ← get
    lift (enforce s.on_core_thread "Core: Objects must be added from core!")
    initialized ← lift (is_initialized (s.objects o))
    lift (enforce initialized "Core: Object to add not initialized")
    l ← lift (add_to_object_container s.on_core_thread s.objects o s.object_list)
    set_core (record s.core { object_list = l })

  unfoldable pub add_unique_object : Ref → M X (Unit {0})
  add_unique_object o = do
    s ← get
    lift (enforce s.on_core_thread "Core: Objects must be added from core!")
    initialized ← lift (is_initialized (s.objects o))
    lift (enforce initialized "Core: Object to add not initialized")
    l ← lift (add_unique s.on_core_thread s.objects o s.object_list)
    set_core (record s.core { object_list = l })

  unfoldable pub remove_object_from_simulation : ObjectId → M X (Unit {0})
  remove_object_from_simulation id = do
    s ← get
    lift (enforce s.on_core_thread "Core: Objects must be removed from core!")
    l ← lift (remove_from_simulation s.on_core_thread id s.object_list)
    set_core (record s.core { object_list = l })

  unfoldable pub get_current_object_list : M X ContainerPtr
  get_current_object_list = do s ← get; pure (get_current_object_container s.object_list)

  unfoldable pub remove_action : Ref → M X (Unit {0})
  remove_action a = lift (enforce false "Core: removing Actions is not implemented")

  -- ActionFactory::create, and a fresh pointer to the action.
  unfoldable pub make_action : ActionClass → Duration → TimePoint → ObjectId → ObjectId → M X Ref
  make_action action_class duration start id generator = do
    a ← lift (create action_class duration start id generator)
    s ← get
    put (record s { actions = update s.actions s.next_action a; next_action = s.next_action + 1 })
    pure s.next_action

  -- A call of the state machine, which keeps its state where it does not throw.
  abbrev change_state : Ref → (State → State × Result (Unit {0})) → M X (Unit {0})
  change_state a f = do
    s ← get
    let next = f (s.actions a).state
    lift next.1
    set_action a (record (s.actions a) { state = next.0 })

  schedule_start_as : ActionClass → Ref → M X (Unit {0})
  schedule_start_as duration_action a = do
    s ← get
    lift (
        enforce ((s.actions a).action_id == 0)
          "DurationAction: tried to schedule Action with Id already set")
    change_state a set_running
    schedule_action (record { kind = start_handler; action = a })
  schedule_start_as init_action a = do
    s ← get
    lift (
        enforce ((s.actions a).action_id == 0)
          "InitAction: tried to schedule Action with Id already set")
    change_state a set_running
    change_state a set_finished
    schedule_action (record { kind = init_handler; action = a })

  -- The virtual scheduleStartHandler().
  unfoldable pub schedule_start_handler : Ref → M X (Unit {0})
  unfolding schedule_start_as
  schedule_start_handler a = do s ← get; schedule_start_as (s.actions a).action_class a

  -- With COSIDIA_SAFE the state machine is not told that the action ends.
  schedule_end_as : ActionClass → Ref → M X (Unit {0})
  schedule_end_as duration_action a = do
    s ← get
    lift (
        enforce (not ((s.actions a).action_id == 0))
          "DurationAction: tried to schedule endHandler without beginHandler scheduled")
    schedule_action (record { kind = end_handler; action = a })
  schedule_end_as init_action a = pure tt

  -- The virtual scheduleEndHandler(); an InitAction has no end.
  unfoldable pub schedule_end_handler : Ref → M X (Unit {0})
  unfolding schedule_end_as
  schedule_end_handler a = do s ← get; schedule_end_as (s.actions a).action_class a

  -- The loop over the actions that a task leaves to be scheduled.
  unfoldable pub schedule_all : List Ref → M X (Unit {0})
  schedule_all [] = pure tt
  schedule_all (a ∷ rest) = do schedule_start_handler a; schedule_all rest
