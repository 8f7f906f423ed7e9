-- ===== src/Vehicles/Vehicle.antt =====
-- src/objects/VehicleObject.cpp. The vehicles' own state is reached through the objects' pointers,
-- and the updates of a step through the pointer of an action's data. `random` is the sequence
-- that the core's generator draws, of which `drawn` are used up. There is no user interface
-- (WITH_GUI is not defined).
pub mod Updates
use cosidia.Prelude.{
  ℤ, ℕ, ◌+◌, eqb_ℤ, Bool, true, false, Option, none, some, List, String, if◌then◌else◌,
}
use cosidia.Prelude.Result.{Result, ok, err, enforce, undefined, deref, get_future}
use text.Mathlib.Text.{◌==◌ as str_eq}
use cosidia.Utils.ContextContainer.{ContextContainer, get_element, swap}
use cosidia.Utils.ReadOnly.{get as get_value}
use cosidia.Core.Clock.{TimePoint, zero_time}
use cosidia.Core.Action.{Ref, get_end_time}
use cosidia.Objects.Object.{ObjectClass, plain, vehicle}
use cosidia.Kernel.{System, M, pure, ◌>>=◌, ◌>>◌, get, put, lift, update}
use cosidia.Kernel.Execution.{Behaviour}
use cosidia.Vehicles.Update.{VehicleUpdate, get_update_for_vehicle}

-- VehicleObjectContext
pub record VehicleContext (Real : Type 0) : Type 0 where
  pub speed : Real
  pub longitude : Real
  pub latitude : Real
  pub x : Real
  pub y : Real
  pub heading : Real
  pub last_update : TimePoint

abbrev pub new_context : {Real : Type 0} → Real → VehicleContext Real
new_context zero = record {
  speed = zero;
  longitude = zero;
  latitude = zero;
  x = zero;
  y = zero;
  heading = zero;
  last_update = zero_time;
}

pub record Vehicles (Real : Type 0) : Type 0 where
  pub contexts : Ref → ContextContainer (VehicleContext Real)
  pub futures : Ref → Option (VehicleContext Real)
  pub updates : Ref → List (String × VehicleUpdate Real)
  pub drawn : ℕ

-- mExternalId.get()
external_id : ObjectClass → Result String
external_id plain = err undefined
external_id (vehicle id) = get_value id

module _ {Real : Type 0} (zero : Real) (random : ℕ → ℤ) where
  -- Core::getRandomNumber
  unfoldable pub get_random_number : M (Vehicles Real) ℤ
  get_random_number = do
    s ← get
    lift (enforce s.on_core_thread "Core: getRandomNumber only allowed to be called from core")
    put (record s { model = record s.model { drawn = s.model.drawn + 1 } })
    pure (random s.model.drawn)

  abbrev pub updated_context : TimePoint → VehicleUpdate Real → VehicleContext Real
  updated_context t u = record {
    speed = u.speed;
    longitude = u.longitude;
    latitude = u.latitude;
    x = u.position.0;
    y = u.position.1;
    heading = u.heading;
    last_update = t;
  }

  -- The old context is read for a message.
  unfoldable pub execute_sumo_update :
      Ref → Ref → Option (VehicleContext Real) → M (Vehicles Real) (VehicleContext Real)
  unfolding external_id
  execute_sumo_update o a context = do
    s ← get
    lift (
        enforce (elim (s.actions a).action_data [ none ↦ false | some _ ↦ true ])
          "VehicleObject: Could not cast ActionData to VehicleUpdateActionData")
    data_pointer ← lift (deref (s.actions a).action_data)
    id ← lift (external_id (s.objects o).object_class)
    current_update ← lift (get_update_for_vehicle id (s.model.updates data_pointer))
    lift (
        enforce (eqb_ℤ current_update.object_id (s.objects o).object_id)
          "VehicleObject: ExternalId and ObjectId are not corresponding for VehicleUpdate")
    old ← lift (deref context)
    pure (updated_context (get_end_time (s.actions a)) current_update)

  -- The fiber runs its task when it is launched.
  vehicle_start_execution : Ref → Ref → M (Vehicles Real) (Unit {0})
  unfolding execute_sumo_update
  vehicle_start_execution o a = do
    s ← get
    if str_eq (s.actions a).action_type "SUMO"
        then (do
          context ← lift (get_element s.on_core_thread (s.model.contexts o))
          result ← execute_sumo_update o a context
          s ← get
          put (record s {
            model = record s.model { futures = update s.model.futures o (some result) };
          }))
        else lift (enforce false "VehicleObject: unknown Action")

  swap_context : Ref → VehicleContext Real → M (Vehicles Real) (Unit {0})
  swap_context o context = do
    s ← get
    c ← lift (swap s.on_core_thread (some context) (s.model.contexts o))
    put (record s { model = record s.model { contexts = update s.model.contexts o c } })

  vehicle_end_execution : Ref → Ref → M (Vehicles Real) (Unit {0})
  unfolding swap_context
  vehicle_end_execution o a = do
    s ← get
    if str_eq (s.actions a).action_type "SUMO"
        then (do
          result ← lift (get_future (s.model.futures o))
          put (record s { model = record s.model { futures = update s.model.futures o none } })
          swap_context o result)
        else lift (enforce false "VehicleObject: Unknown action")

  vehicle_init_object : Ref → Ref → M (Vehicles Real) (Unit {0})
  unfolding get_random_number swap_context
  vehicle_init_object o a = do number ← get_random_number; swap_context o (new_context zero)

  unfoldable pub vehicle_object : Behaviour (Vehicles Real)
  unfolding vehicle_start_execution vehicle_end_execution vehicle_init_object
  vehicle_object = record {
    start_execution = vehicle_start_execution;
    end_execution = vehicle_end_execution;
    init_object = vehicle_init_object;
  }
