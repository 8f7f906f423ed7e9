-- ===== src/Application/CaService.antt =====
-- src/application/CaService.cpp. A fiber runs its task when it is launched, and an exception of a
-- task leaves the launch. The action data of a request is its message and its port, behind a
-- pointer; the constant parameters of the request are left out.
pub mod Period
use cosidia.Prelude.{ℤ, pos, ◌+ℤ◌, ℕ, ◌+◌, Option, none, some, List, [], ◌∷◌, String, if◌then◌else◌}
use cosidia.Prelude.Result.{runtime_error, deref, get_future}
use text.Mathlib.Text.{◌==◌ as str_eq}
use cosidia.Utils.ContextContainer.{ContextContainer, get_element}
use cosidia.Core.Clock.{TimePoint, at_millisecond}
use cosidia.Core.Action.{Ref, ObjectId, duration_action, set_type, set_action_data}
use cosidia.Objects.Container.{ContainerPtr}
use cosidia.Objects.Relations.{get_parent_by_name, get_sibling_of_id}
use cosidia.Kernel.{System, M, pure, ◌>>=◌, ◌>>◌, get, put, lift, throw, set_action, update}
use cosidia.Kernel.Schedule.{
  make_action, schedule_start_handler, schedule_all, get_current_object_list,
}
use cosidia.Kernel.Execution.{Behaviour, create_self_action}
use cosidia.Vehicles.Vehicle.{VehicleContext}
use cosidia.Application.Cam.{Cam, Validate, Numbers, generation_delta_time, check_cam}

-- ServiceActionData
pub record ServiceActionData : Type 0 where
  pub packet : Cam
  pub port : ℕ

-- CaServiceUpdateData
pub record CaServiceUpdateData : Type 0 where
  pub actions_to_schedule : List Ref
  pub action_to_delete : Option Ref

pub record CaService (Real : Type 0) : Type 0 where
  pub vehicle_object : Option Ref
  pub router_id : ObjectId
  pub future : Option CaServiceUpdateData
  pub contexts : Ref → ContextContainer (VehicleContext Real)
  pub service_data : Ref → ServiceActionData
  pub next_data : ℕ
  pub utc_start : Option TimePoint

module _ {Real : Type 0} (numbers : Numbers Real) (validate : Validate) (cam_port : ℕ) where
  -- `t` is the start time of the action.
  unfoldable pub make_cam : TimePoint → Option (VehicleContext Real) → M (CaService Real) Cam
  make_cam t context = do
    s ← get
    g ← lift (generation_delta_time s.model.utc_start t)
    c ← lift (deref context)
    lift (
        check_cam validate (record {
          protocol_version = 2;
          station_id = 1;
          generation_delta_time = g;
          longitude = numbers.in_microdegrees c.longitude;
          latitude = numbers.in_microdegrees c.latitude;
          semi_major_orientation = some (numbers.to_integer c.heading);
          heading = pos 0;
          speed = 0;
        }))

  -- createSelfAction and setType, 100 ms after the start of the action.
  unfoldable pub next_action : String → Ref → Ref → M (CaService Real) Ref
  next_action action_type o a = do
    s ← get
    n ←
        create_self_action o (at_millisecond (pos 2))
          (at_millisecond (pos 100) +ℤ (s.actions a).start_time)
    s ← get
    set_action n (set_type action_type (s.actions n))
    pure n

  ca_init_object : Ref → Ref → M (CaService Real) (Unit {0})
  unfolding next_action
  ca_init_object o a = do n ← next_action "CaInit" o a; schedule_start_handler n

  unfoldable pub init : Ref → Ref → ContainerPtr → M (CaService Real) CaServiceUpdateData
  unfolding next_action
  init o a obj_list = do
    s ← get
    router ← lift (get_parent_by_name s.objects obj_list.container o "Router")
    let id = (s.objects router).object_id
    mobility ← lift (get_sibling_of_id s.objects obj_list.container id "VehicleObject")
    put (record s { model = record s.model { router_id = id; vehicle_object = some mobility } })
    n ← next_action "CaUpdate" o a
    pure (record { actions_to_schedule = n ∷ []; action_to_delete = none })

  unfoldable pub execute_update :
      Ref → Ref → Option (VehicleContext Real) → M (CaService Real) CaServiceUpdateData
  unfolding make_cam next_action
  execute_update o a context = do
    s ← get
    message ← make_cam (s.actions a).start_time context
    s ← get
    let p = s.model.next_data
    let sent : ServiceActionData = record { packet = message; port = cam_port }
    put (record s {
      model = record s.model {
        service_data = update s.model.service_data p sent;
        next_data = p + 1;
      };
    })
    transmit ←
        make_action duration_action (at_millisecond (pos 1)) (s.actions a).start_time
          s.model.router_id (s.objects o).object_id
    s ← get
    described ← lift (set_action_data p (set_type "ServiceRequest" (s.actions transmit)))
    set_action transmit described
    n ← next_action "CaUpdate" o a
    pure (record { actions_to_schedule = transmit ∷ n ∷ []; action_to_delete = none })

  set_future : Option CaServiceUpdateData → M (CaService Real) (Unit {0})
  set_future d = do s ← get; put (record s { model = record s.model { future = d } })

  ca_start_execution : Ref → Ref → M (CaService Real) (Unit {0})
  unfolding set_future
  ca_start_execution o a = do
    s ← get
    let action_type = (s.actions a).action_type
    if str_eq action_type "CaUpdate"
        then (do
          vehicle ← lift (deref s.model.vehicle_object)
          context ← lift (get_element s.on_core_thread (s.model.contexts vehicle))
          result ← execute_update o a context
          set_future (some result))
        else if str_eq action_type "CaIndication"
        then pure tt
        else if str_eq action_type "CaInit"
        then (do
          obj_list ← get_current_object_list
          result ← init o a obj_list
          set_future (some result))
        else throw (runtime_error "CaService: wrong BeginAction received")

  -- mFuture.get()
  take_future : M (CaService Real) CaServiceUpdateData
  unfolding set_future
  take_future = do s ← get; d ← lift (get_future s.model.future); set_future none; pure d

  ca_end_execution : Ref → Ref → M (CaService Real) (Unit {0})
  unfolding take_future
  ca_end_execution o a = do
    s ← get
    let action_type = (s.actions a).action_type
    if str_eq action_type "CaUpdate"
        then (do d ← take_future; schedule_all d.actions_to_schedule)
        else if str_eq action_type "CaIndication"
        then (do d ← take_future; pure tt)
        else if str_eq action_type "CaInit"
        then (do d ← take_future; schedule_all d.actions_to_schedule)
        else throw (runtime_error "CaService: wrong EndAction received")

  unfoldable pub ca_service : Behaviour (CaService Real)
  unfolding ca_start_execution ca_end_execution ca_init_object
  ca_service = record {
    start_execution = ca_start_execution;
    end_execution = ca_end_execution;
    init_object = ca_init_object;
  }
