-- ===== src/Tests/SumoRuns.antt =====
-- Runs of src/objects/VehicleObject.cpp, src/mobility/SumoUpdater.cpp and src/application.
use cosidia.Prelude.{
  ℤ, pos, ◌+ℤ◌, ◌-ℤ◌, ◌*ℤ◌, leb_ℤ, ℕ, ◌+◌, ◌%◌, ◌<◌, ◌≡◌, ◌≢◌, refl, arith, true, some, none, List,
  [], ◌∷◌, String,
}
use cosidia.Prelude.Result.{ok, err, runtime_error}
use cosidia.Core.Clock.{at_millisecond, at_second, zero_time, div_trunc}
use cosidia.Core.UtcTime.{get_utc_start_time}
use cosidia.Core.Action.{Ref, get_end_time}
use cosidia.Objects.Object.{vehicle}
use cosidia.Objects.ActionManager.{ActionManager}
use cosidia.Objects.ActionManager.Fifo.{arrives, ends, use_all}
use cosidia.Objects.ActionManager.Fifo.Turn
use cosidia.Kernel.{System, ◌>>◌}
use cosidia.Kernel.Schedule.Late.{at_time}
use cosidia.Networking.Runtime.{convert, utc_its_diff}
use cosidia.Vehicles.Update.{VehicleUpdate, new_update, get_update_for_vehicle, lookup}
use cosidia.Vehicles.Vehicle.{Vehicles, vehicle_object, updated_context, new_context}
use cosidia.Vehicles.Vehicle.Updates
use cosidia.Vehicles.Traci.{
  Answers, string_list, double, var_time, var_speed, var_departed_vehicles_ids,
  var_arrived_vehicles_ids,
}
use cosidia.Vehicles.Sumo.{SumoUpdater, Results, step}
use cosidia.Std.Names
use cosidia.Std.Map
use cosidia.Vehicles.Update
use cosidia.Vehicles.Sumo.Subscribed
use cosidia.Vehicles.Sumo.Subscribed.{Reports, Lists}
use cosidia.Application.Cam.{Cam, Numbers, Validate, generation_delta_time, rem_trunc, check_cam}
use cosidia.Application.Cam.DeltaTime
use cosidia.Application.CaService.{CaService, ca_service, make_cam}
use cosidia.Application.CaService.Period
use cosidia.Tests.World.{world_of, lamp, tick}

delayed_action_starts_example :
    (m' : ActionManager) × (later : List Ref) × (use_all
        (arrives 9 ∷ ends ∷ ends ∷ [])
        (record { active_action = some 1; delayed_queue = 2 ∷ 3 ∷ [] })
      ≡ ok (m', 2 ∷ 3 ∷ later))
unfolding Turn.ended
delayed_action_starts_example =
    Turn.delayed_action_starts (arrives 9 ∷ ends ∷ ends ∷ []) 1 3 (2 ∷ []) [] (omega arith)

elapsed : utc_its_diff +ℤ pos 65_530_000_000 -ℤ utc_its_diff ≡ pos 65_530_000_000
unfolding ◌+ℤ◌ ◌-ℤ◌
elapsed = refl

generation_delta_time_wraps_example :
    (g : ℕ) × (generation_delta_time (some utc_its_diff) (pos 65_530_000_000) ≡ ok (pos g))
    × (g < 65_536)
    × (generation_delta_time (some utc_its_diff) (pos 65_530_000_000 +ℤ at_millisecond (pos 100))
        ≡ ok (pos ((g + 100) % 65_536)))
generation_delta_time_wraps_example =
    DeltaTime.generation_delta_time_wraps utc_its_diff (pos 65_530_000_000) 65_530_000_000 100
      elapsed

abbrev moved : VehicleUpdate ℤ
moved = record (new_update (pos 0)) { speed = pos 14; vehicle = "car.1"; object_id = pos 2 }

abbrev traffic : System (Vehicles ℤ)
traffic =
    record (world_of (record {
      contexts = λ p. record { element = some (new_context (pos 0)) };
      futures = λ p. none;
      updates = λ p. ("car.1", moved) ∷ [];
      drawn = 0;
    })) {
      actions = λ r. record (tick r (pos 20)) { action_type = "SUMO"; action_data = some 11 };
      objects = λ r. record lamp { object_class = vehicle (record { element = some "car.1" }) };
    }

found : get_update_for_vehicle "car.1" (("car.1", moved) ∷ []) ≡ ok moved
unfolding get_update_for_vehicle lookup
found = refl

update_arrives_example :
    (s' : System (Vehicles ℤ)) × (((vehicle_object (pos 0) pos).start_execution 7 1
          >> (vehicle_object (pos 0) pos).end_execution 7 1)
        traffic
      ≡ ok (tt, s'))
    × ((s'.model.contexts 7).element
        ≡ some (updated_context (pos 0) pos (get_end_time (tick 1 (pos 20))) moved))
    × (s'.model.futures 7 ≡ none)
    × ((p : Ref) → p ≢ 7 → s'.model.contexts p ≡ record { element = some (new_context (pos 0)) })
update_arrives_example =
    Updates.update_arrives (pos 0) pos 7 1 11 "car.1" moved (new_context (pos 0)) traffic refl refl
      refl refl refl found refl

abbrev answers : Answers ℤ
answers = record {
  zero = pos 0;
  simulation_results =
      (var_time, double (pos 1))
      ∷ (var_departed_vehicles_ids, string_list ("b" ∷ "c" ∷ []))
      ∷ (var_arrived_vehicles_ids, string_list ("a" ∷ []))
      ∷ [];
  vehicle_results = λ v. (var_speed, double (pos 14)) ∷ [];
  convert_geo = λ (x, y, z). (x, y);
  shows = λ t s. true;
  memory = λ v. record { longitude = pos 1; latitude = pos 2; heading = pos 3; speed = pos 4 };
}

abbrev updater : SumoUpdater
updater = record {
  vehicle_vars = var_speed ∷ [];
  sim_vars = [];
  subscribed_vehicles = "a" ∷ [];
  sent = [];
}

abbrev updater_after : SumoUpdater
updater_after = record {
  vehicle_vars = var_speed ∷ [];
  sim_vars = [];
  subscribed_vehicles = "b" ∷ "c" ∷ [];
  sent = ("b", var_speed ∷ []) ∷ ("c", var_speed ∷ []) ∷ [];
}

abbrev speed_of : String → VehicleUpdate ℤ
speed_of v = record (new_update (pos 0)) {
  longitude = pos 1;
  latitude = pos 2;
  heading = pos 3;
  speed = pos 14;
  vehicle = v;
}

abbrev results : Results ℤ
results = record {
  departed_vehicles = "b" ∷ "c" ∷ [];
  arrived_vehicles = "a" ∷ [];
  update_vehicles = "b" ∷ "c" ∷ [];
  update_data = ("b", speed_of "b") ∷ ("c", speed_of "c") ∷ [];
}

step-eq : step answers (pos 1000) updater ≡ ok (results, updater_after)
unfolding step Map.find Update.add_data
step-eq = refl

step_subscribes_example :
    Lists (Map.find (pos 116) answers.simulation_results) results.departed_vehicles
    × Lists (Map.find (pos 122) answers.simulation_results) results.arrived_vehicles
    × Reports updater updater_after results
unfolding Names.has
step_subscribes_example =
    Subscribed.step_subscribes answers (pos 1000) updater updater_after results (refl, tt) step-eq

abbrev numbers : Numbers ℤ
numbers = record {
  in_microdegrees = λ x. x;
  in_tenths = λ x. x *ℤ pos 10;
  to_integer = λ x. x;
  is_nonnegative = λ x. leb_ℤ (pos 0) x;
}

abbrev accepted : Validate
accepted cam = none

abbrev cam : Cam
cam = record {
  protocol_version = 2;
  station_id = 1;
  generation_delta_time = pos 0;
  longitude = pos 0;
  latitude = pos 0;
  semi_major_orientation = some (pos 0);
  heading = pos 0;
  speed = 0;
}

abbrev service : System (CaService ℤ)
service =
    record (world_of (record {
      vehicle_object = some 5;
      router_id = pos 3;
      future = none;
      contexts = λ p. record { element = some (new_context (pos 0)) };
      service_data = λ p. record { packet = cam; port = 0 };
      next_data = 0;
      utc_start = some utc_its_diff;
    })) { actions = λ r. record (tick r (pos 20)) { action_type = "CaUpdate" } }

message :
    make_cam numbers accepted 2001 (pos 20) (some (new_context (pos 0))) service ≡ ok (cam, service)
unfolding make_cam generation_delta_time convert get_utc_start_time check_cam div_trunc ◌+ℤ◌ ◌-ℤ◌
    rem_trunc
message = refl

early : leb_ℤ zero_time (pos 20) ≡ true
unfolding zero_time at_second ◌*ℤ◌
early = refl

update_cannot_end_example :
    (s' : System (CaService ℤ)) × ((ca_service numbers accepted 2001).start_execution 7 1 service
      ≡ ok (tt, s'))
    × ((ca_service numbers accepted 2001).end_execution 7 1
          (at_time (get_end_time (tick 1 (pos 20))) s')
        ≡ err (runtime_error "ActionList: Wrong order of actions"))
update_cannot_end_example =
    Period.update_cannot_end numbers accepted 2001 7 1 5 (some (new_context (pos 0))) cam service
      refl refl refl refl message early (omega arith) refl refl (omega arith)
