-- ===== src/Networking/Router/Behaviour.antt =====
-- The object of src/networking/Router.cpp: its initialisation, and the launch and the end of its
-- tasks. A fiber runs its task when it is launched. A packaged task keeps an exception for the future's
-- get(); `abandoned` is the state that a task leaves which throws, by the action, the exception and
-- the state before. Where a task does what is undefined, or aborts, so does its launch.
pub mod Superseded
use cosidia.Prelude.{
  ℤ, pos, ◌+ℤ◌, ℕ, ◌+◌, Bool, true, false, ◌||◌, Option, none, some, String, if◌then◌else◌,
}
use cosidia.Prelude.Result.{
  Result, ok, err, Error, runtime_error, out_of_range, bad_cast, socket_exception,
  future_uninitialized, std_exception, no_fuel, assertion, undefined, deref, get_future, enforce,
}
use text.Mathlib.Text.{◌==◌ as str_eq}
use cosidia.Utils.ContextContainer.{get_element}
use cosidia.Utils.ReadOnly.{set_element, get as get_value}
use cosidia.Core.Clock.{at_millisecond}
use cosidia.Core.Action.{Ref, set_type}
use cosidia.Objects.Container.{ContainerPtr, get_unique}
use cosidia.Objects.Relations.{get_sibling_by_name}
use cosidia.Kernel.{System, M, pure, ◌>>=◌, ◌>>◌, get, put, lift, throw, set_action, update}
use cosidia.Kernel.Schedule.{
  schedule_start_handler, schedule_all, get_current_object_list, remove_action,
}
use cosidia.Kernel.Execution.{Behaviour, create_self_action}
use cosidia.Networking.Tracker.{is_start, is_end}
use cosidia.Application.Cam.{Validate, Numbers}
use cosidia.Radio.Transmission.{setup_receiver_context, add_emitter}
use cosidia.Vehicles.Vehicle.{VehicleContext}
use cosidia.Networking.Router.{Vanetza, Router, RouterUpdateData}
use cosidia.Networking.Router.Tasks.{init_router, execute_update, ca_update, transmission_received}

abbrev pub is_exception : Error → Bool
is_exception e = elim e [ no_fuel ↦ false | assertion ↦ false | undefined ↦ false | e ↦ true ]

-- `throw e` in a handler of `const std::exception&`.
abbrev pub sliced : Error → Error
sliced e = elim e [
  | runtime_error msg ↦ std_exception
  | out_of_range ↦ std_exception
  | bad_cast ↦ std_exception
  | socket_exception ↦ std_exception
  | future_uninitialized ↦ std_exception
  | e ↦ e
]

module _ {V Real Address Profile Category Packet : Type 0}
    (van : Vanetza V Real Address Profile Category Packet) (numbers : Numbers Real)
    (validate : Validate) (random : ℕ → ℤ)
    (expired : System (Router V Real Address Profile Category Packet) → Bool) (fuel : ℕ)
    (abandoned : Ref
      → Error
      → System (Router V Real Address Profile Category Packet)
      → System (Router V Real Address Profile Category Packet)) where
  abbrev RouterM : Type 0 → Type 0
  RouterM A = M (Router V Real Address Profile Category Packet) A

  abbrev change_router :
      (Router V Real Address Profile Category Packet
        → Result (Router V Real Address Profile Category Packet))
      → RouterM (Unit {0})
  change_router f = do s ← get; r ← lift (f s.model); put (record s { model = r })

  router_init_object : Ref → Ref → RouterM (Unit {0})
  router_init_object o a = do
    s ← get
    lift (enforce s.on_core_thread "Core: getRandomNumber only allowed to be called from core")
    number ← lift (set_element (random s.model.drawn) s.model.random_number)
    obj_list ← get_current_object_list
    mobility ← lift (get_sibling_by_name s.objects obj_list.container o "VehicleObject")
    radio ← lift (get_unique "Radio" obj_list.container)
    change_router (λ r. ok (record r {
      drawn = r.drawn + 1;
      random_number = number;
      vehicle_object = some mobility;
      radio_object = some radio;
    }))
    n ← lift (get_value number)
    next_action ←
        create_self_action o (at_millisecond (pos 2)) ((s.actions a).start_time +ℤ at_millisecond n)
    s ← get
    set_action next_action (set_type "initRouter" (s.actions next_action))
    schedule_start_handler next_action

  -- mVehicleObject.lock()->getContext()
  context_of_vehicle : RouterM (Option (VehicleContext Real))
  context_of_vehicle = do
    s ← get
    vehicle ← lift (deref s.model.vehicle_object)
    lift (get_element s.on_core_thread (s.model.contexts vehicle))

  set_future : Option (Result RouterUpdateData) → RouterM (Unit {0})
  set_future d = change_router (λ r. ok (record r { future = d }))

  packaged : Ref → RouterM RouterUpdateData → RouterM (Result RouterUpdateData)
  packaged a task s = elim (task s) [
    | ok (d, s') ↦ ok (ok d, s')
    | err e ↦ if is_exception e then ok (err e, abandoned a e s) else err e
  ]

  launch :
      Ref
      → (Option (VehicleContext Real) → ContainerPtr → RouterM RouterUpdateData)
      → RouterM (Unit {0})
  unfolding context_of_vehicle packaged set_future
  launch a task = do
    context ← context_of_vehicle
    objects ← get_current_object_list
    result ← packaged a (task context objects)
    set_future (some result)

  router_start_execution : Ref → Ref → RouterM (Unit {0})
  unfolding launch packaged set_future
  router_start_execution o a = do
    s ← get
    let action_type = (s.actions a).action_type
    if str_eq action_type "caUpdate"
        then launch a (ca_update van numbers validate expired fuel o a)
        else if str_eq action_type "initRouter"
        then (do
          result ← packaged a (init_router van numbers validate expired fuel o a)
          set_future (some result))
        else if is_start a s.model.tracker
        then (if str_eq action_type "update"
            then launch a (execute_update van numbers validate expired fuel o a)
            else if str_eq action_type "indication"
            then launch a (transmission_received van numbers validate expired fuel o a)
            else throw (runtime_error "Router: wrong BeginAction received"))
        else pure tt

  delete_action : Option Ref → RouterM (Unit {0})
  delete_action none = pure tt
  delete_action (some a) = remove_action a

  send : Ref → Option Ref → RouterM (Unit {0})
  unfolding context_of_vehicle
  send o none = pure tt
  send o (some p) = do
    s ← get
    t ← lift (
        setup_receiver_context s.on_core_thread
          (λ v. get_element s.on_core_thread (s.model.contexts v)) (s.model.transmissions p))
    context ← context_of_vehicle
    t' ← lift (add_emitter (s.objects o).object_id context t)
    change_router (λ r. ok (record r { transmissions = update r.transmissions p t' }))

  -- The body of the try blocks.
  finish : Ref → RouterM (Unit {0})
  unfolding delete_action send set_future
  finish o = do
    s ← get
    kept ← lift (get_future s.model.future)
    data_ ← lift kept
    set_future none
    schedule_all data_.actions_to_schedule
    delete_action data_.action_to_delete
    send o data_.transmission

  -- The handlers print, and throw again.
  catching : RouterM (Unit {0}) → RouterM (Unit {0})
  catching m s = elim (m s) [ ok r ↦ ok r | err e ↦ err (sliced e) ]

  router_end_execution : Ref → Ref → RouterM (Unit {0})
  unfolding finish catching
  router_end_execution o a = do
    s ← get
    let action_type = (s.actions a).action_type
    if str_eq action_type "update" || str_eq action_type "indication"
        then (do
          (tracker, ends) ← lift (is_end a s.model.tracker)
          change_router (λ r. ok (record r { tracker = tracker }))
          if ends then catching (finish o) else pure tt)
        else if str_eq action_type "caUpdate" || str_eq action_type "initRouter"
        then catching (finish o)
        else throw (runtime_error "Router: wrong EndAction received")

  unfoldable pub router : Behaviour (Router V Real Address Profile Category Packet)
  unfolding router_init_object router_start_execution router_end_execution
  router = record {
    start_execution = router_start_execution;
    end_execution = router_end_execution;
    init_object = router_init_object;
  }
