-- ===== src/Networking/Router/Tasks.antt =====
-- The tasks that src/networking/Router.cpp runs in fibers. `expired` tells whether the weak pointer
-- of the receivers' cache has expired, and `fuel` bounds the loop of initRouter.
pub mod NextUpdate
use cosidia.Prelude.{
  ℤ, pos, ◌+ℤ◌, eqb_ℤ, ℕ, ◌+◌, Bool, true, false, not, ◌&&◌, Option, none, some, List, [], ◌∷◌,
  ◌++◌, String, if◌then◌else◌,
}
use cosidia.Prelude.Result.{Result, ok, deref}
use cosidia.Core.Clock.{TimePoint, at_millisecond}
use cosidia.Core.Action.{Ref, Action, duration_action, get_end_time, set_type, set_action_data}
use cosidia.Objects.Container.{ContainerPtr}
use cosidia.Kernel.{System, M, pure, ◌>>=◌, ◌>>◌, get, put, lift, set_action, update}
use cosidia.Kernel.Schedule.{make_action}
use cosidia.Kernel.Execution.{create_self_action}
use cosidia.Networking.Runtime.{make_runtime, get_next_start}
use cosidia.Networking.Tracker.{set_next, next_start_time}
use cosidia.Networking.AccessInterface.{new_interface, initialize_cache, get_transmission}
use cosidia.Application.Cam.{Validate, Numbers}
use cosidia.Vehicles.Vehicle.{VehicleContext}
use cosidia.Networking.Router.{Vanetza, Router, RouterUpdateData}
use cosidia.Networking.Router.Stack.{manual, call_stack, drop_outdated, move_stack, trigger_cam}

abbrev pub new_data : RouterUpdateData
new_data = record { actions_to_schedule = []; action_to_delete = none; transmission = none }

-- `data.actionsToSchedule.push_back(a)`
abbrev pub push : Ref → RouterUpdateData → RouterUpdateData
push a d = record d { actions_to_schedule = d.actions_to_schedule ++ (a ∷ []) }

module _ {V Real Address Profile Category Packet : Type 0}
    (van : Vanetza V Real Address Profile Category Packet) (numbers : Numbers Real)
    (validate : Validate) (expired : System (Router V Real Address Profile Category Packet) → Bool)
    (fuel : ℕ) where
  abbrev RouterM : Type 0 → Type 0
  RouterM A = M (Router V Real Address Profile Category Packet) A

  -- A change of the router that may throw.
  abbrev change :
      (Router V Real Address Profile Category Packet
        → Result (Router V Real Address Profile Category Packet))
      → RouterM (Unit {0})
  change f = do s ← get; r ← lift (f s.model); put (record s { model = r })

  self_action : String → Ref → TimePoint → RouterM Ref
  self_action action_type o t = do
    a ← create_self_action o (at_millisecond (pos 2)) t
    s ← get
    set_action a (set_type action_type (s.actions a))
    pure a

  unfoldable pub schedule_next_update : Ref → RouterUpdateData → RouterM RouterUpdateData
  unfolding self_action
  schedule_next_update o data_ = do
    s ← get
    runtime ← lift (deref s.model.runtime)
    let next_tp = get_next_start (manual van) runtime
    if not (eqb_ℤ next_tp (next_start_time s.actions s.model.tracker))
        then (do
          a ← self_action "update" o next_tp
          change (λ r. ok (record r { tracker = set_next a r.tracker }))
          pure (push a data_))
        else pure data_

  unfoldable pub schedule_transmission :
      Ref → Ref → ContainerPtr → RouterUpdateData → RouterM RouterUpdateData
  schedule_transmission o current_action current_objects data_ = do
    s ← get
    i ← lift (deref s.model.access_interface)
    if i.has_request
        then (do
          (i', t) ← lift (get_transmission s.objects (expired s) current_objects i)
          let p = s.model.next_transmission
          put (record s {
            model = record s.model {
              access_interface = some i';
              transmissions = update s.model.transmissions p t;
              next_transmission = p + 1;
            };
          })
          radio ← lift (deref s.model.radio_object)
          a ←
              make_action duration_action (at_millisecond (pos 2))
                (get_end_time (s.actions current_action) +ℤ at_millisecond (pos 1))
                (s.objects radio).object_id (s.objects o).object_id
          s ← get
          described ← lift (set_action_data p (set_type "transmissionStart" (s.actions a)))
          set_action a described
          pure (push a (record data_ { transmission = some p })))
        else pure data_

  unfoldable pub common_actions :
      Ref
      → Ref
      → Option (VehicleContext Real)
      → ContainerPtr
      → RouterUpdateData
      → RouterM RouterUpdateData
  unfolding schedule_next_update schedule_transmission
  common_actions o a context current_objects data_ = do
    s ← get
    c ← lift (deref context)
    change (move_stack van c (s.actions a).start_time)
    data_ ← schedule_transmission o a current_objects data_
    schedule_next_update o data_

  unfoldable pub init_router : Ref → Ref → RouterM RouterUpdateData
  unfolding self_action schedule_next_update
  init_router o a = do
    s ← get
    runtime ← lift (make_runtime (manual van) s.model.utc_start (s.actions a).start_time)
    let access = initialize_cache (s.objects o).object_name (s.objects o).object_id new_interface
    change (λ r. ok (record r { runtime = some runtime; access_interface = some access }))
    change (drop_outdated van fuel)
    change (λ r. ok (record r { init_done = true }))
    ca_action ← self_action "caUpdate" o ((s.actions a).start_time +ℤ at_millisecond (pos 100))
    schedule_next_update o (push ca_action new_data)

  unfoldable pub execute_update :
      Ref → Ref → Option (VehicleContext Real) → ContainerPtr → RouterM RouterUpdateData
  unfolding common_actions
  execute_update o a context current_objects = common_actions o a context current_objects new_data

  unfoldable pub ca_update :
      Ref → Ref → Option (VehicleContext Real) → ContainerPtr → RouterM RouterUpdateData
  unfolding self_action common_actions
  ca_update o a context current_objects = do
    s ← get
    (if s.model.init_done && numbers.is_nonnegative s.model.position_fix.course
        then change (trigger_cam van numbers validate (s.actions a).start_time)
        else pure tt)
    ca_action ← self_action "caUpdate" o ((s.actions a).start_time +ℤ at_millisecond (pos 100))
    common_actions o a context current_objects (push ca_action new_data)

  unfoldable pub transmission_received :
      Ref → Ref → Option (VehicleContext Real) → ContainerPtr → RouterM RouterUpdateData
  unfolding common_actions
  transmission_received o a context current_objects = do
    s ← get
    if s.model.init_done
        then (do
          p ← lift (deref (s.actions a).action_data)
          let (r, packet) = (s.model.transmissions p).payload
          change (call_stack van (van.indicate packet r.source_addr r.destination_addr))
          common_actions o a context current_objects new_data)
        else pure new_data
