-- ===== src/Vehicles/Sumo.antt =====
-- src/mobility/SumoUpdater.cpp. The answers of SUMO, which come through TraCI, are parameters of a
-- step. `Real` stands for `double`.
pub mod Subscribed
use cosidia.Prelude.{
  ℤ, pos, eqb_ℤ, ◌==◌, Bool, true, false, not, Option, none, some, List, [], ◌∷◌, ◌++◌, String,
  length, leb, if◌then◌else◌,
}
use cosidia.Prelude.Result.{Result, ok, err, bad_cast, ◌>>=◌, ◌>>◌, enforce, assert, deref}
use text.Mathlib.Text.{◌==◌ as str_eq}
use cosidia.Std.Map.{find}
use cosidia.Std.Set.{insert}
use cosidia.Std.Names.{insert_name, erase_name}
use cosidia.Vehicles.Traci.{
  TraciResult, string_list, double, position, Answers, var_speed, var_position, var_angle, var_time,
  var_departed_vehicles_ids, var_teleport_starting_vehicles_ids, var_arrived_vehicles_ids,
  var_delta_t,
}
use cosidia.Vehicles.Update.{VehicleUpdate, new_update, add_data}

-- The last field lists the subscriptions that were sent to SUMO.
pub record SumoUpdater : Type 0 where
  pub vehicle_vars : List ℤ
  pub sim_vars : List ℤ
  pub subscribed_vehicles : List String
  pub sent : List (String × List ℤ)

abbrev pub new_updater : SumoUpdater
new_updater = record { vehicle_vars = []; sim_vars = []; subscribed_vehicles = []; sent = [] }

-- SumoUpdater::Results
pub record Results (Real : Type 0) : Type 0 where
  pub departed_vehicles : List String
  pub arrived_vehicles : List String
  pub update_vehicles : List String
  pub update_data : List (String × VehicleUpdate Real)

-- std::set_union of two ascending sequences, of which the second is a set.
unfoldable pub set_union : List ℤ → List ℤ → List ℤ
set_union a [] = a
set_union a (k ∷ b) = set_union (insert k a) b

is_empty : List ℤ → Bool
is_empty [] = true
is_empty (k ∷ ks) = false

unfoldable pub subscribe_vehicle : String → SumoUpdater → SumoUpdater
unfolding insert_name is_empty
subscribe_vehicle id u =
    let sent = if is_empty u.vehicle_vars then u.sent else u.sent ++ (id, u.vehicle_vars) ∷ [] in
    record u { sent = sent; subscribed_vehicles = insert_name id u.subscribed_vehicles }

unfoldable pub subscribe_simulation_variables : List ℤ → SumoUpdater → Result SumoUpdater
unfolding set_union
subscribe_simulation_variables add_vars u = do
  let vars = set_union u.sim_vars add_vars
  assert (leb (length u.sim_vars) (length vars))
  ok (record u {
    sim_vars = vars;
    sent = if length vars == length u.sim_vars then u.sent else u.sent ++ ("", vars) ∷ [];
  })

unfoldable pub subscribe_vehicles : List String → SumoUpdater → SumoUpdater
unfolding subscribe_vehicle
subscribe_vehicles [] u = u
subscribe_vehicles (id ∷ ids) u = subscribe_vehicles ids (subscribe_vehicle id u)

-- `id_list` are the vehicles that run already.
unfoldable pub init_subscriptions : (id_list : List String) → SumoUpdater → Result SumoUpdater
unfolding subscribe_simulation_variables subscribe_vehicles
init_subscriptions id_list u = do
  let vars =
      var_time ∷ var_departed_vehicles_ids ∷ var_teleport_starting_vehicles_ids
      ∷ var_arrived_vehicles_ids ∷ var_delta_t ∷ []
  let u1 = record u { vehicle_vars = u.vehicle_vars ++ var_speed ∷ var_position ∷ var_angle ∷ [] }
  u2 ← subscribe_simulation_variables vars u1
  ok (subscribe_vehicles id_list u2)

unfoldable pub erase_names : List String → List String → List String
unfolding erase_name
erase_names [] s = s
erase_names (k ∷ ks) s = erase_names ks (erase_name k s)

module _ {Real : Type 0} where
  -- A `dynamic_cast` to a reference.
  as_string_list : TraciResult Real → Result (List String)
  as_string_list (string_list l) = ok l
  as_string_list _ = err bad_cast

  as_double : TraciResult Real → Result Real
  as_double (double d) = ok d
  as_double _ = err bad_cast

  names_of : Option (TraciResult Real) → Result (List String)
  unfolding as_string_list
  names_of none = ok []
  names_of (some r) = as_string_list r

  set_speed : TraciResult Real → VehicleUpdate Real → Result (VehicleUpdate Real)
  set_speed (double v) u = ok (record u { speed = v })
  set_speed _ u = do enforce false "SumoUpdater: Could not cast TraCI Variable"; ok u

  set_position : Answers Real → TraciResult Real → VehicleUpdate Real → Result (VehicleUpdate Real)
  set_position answers (position x y z) u =
      let geo = answers.convert_geo (x, y, z) in
      ok (record u { position = (x, y, z); longitude = geo.0; latitude = geo.1 })
  set_position answers _ u = do enforce false "SumoUpdater: Could not cast TraCIPosition"; ok u

  set_heading : TraciResult Real → VehicleUpdate Real → Result (VehicleUpdate Real)
  set_heading (double v) u = ok (record u { heading = v })
  set_heading _ u = do enforce false "SumoUpdater: could not cast TraCI Heading variable"; ok u

  -- One turn of the loop: the cases of the switch.
  set_variable :
      Answers Real → ℤ → TraciResult Real → VehicleUpdate Real → Result (VehicleUpdate Real)
  unfolding set_speed set_position set_heading
  set_variable answers k r u =
      if eqb_ℤ k var_speed
      then set_speed r u
      else if eqb_ℤ k var_position
      then set_position answers r u
      else if eqb_ℤ k var_angle
      then set_heading r u
      else (do enforce false "SumoUpdater: Traci Subscription not available in VehicleUpdate"; ok u)

  unfoldable pub get_vehicle_update :
      Answers Real → List (ℤ × TraciResult Real) → VehicleUpdate Real → Result (VehicleUpdate Real)
  unfolding set_variable
  get_vehicle_update answers [] u = ok u
  get_vehicle_update answers ((k, r) ∷ vars) u = do
    u' ← set_variable answers k r u
    get_vehicle_update answers vars u'

  -- `VehicleUpdate update;`, and its vehicle.
  abbrev pub unset_update : Answers Real → String → VehicleUpdate Real
  unset_update answers v = record (new_update answers.zero) {
    longitude = (answers.memory v).longitude;
    latitude = (answers.memory v).latitude;
    heading = (answers.memory v).heading;
    speed = (answers.memory v).speed;
    vehicle = v;
  }

  -- The loop over the subscribed vehicles.
  unfoldable pub update_vehicles :
      Answers Real
      → List String
      → List (String × VehicleUpdate Real)
      → Result (List (String × VehicleUpdate Real))
  unfolding get_vehicle_update
  update_vehicles answers [] d = ok d
  update_vehicles answers (v ∷ vs) d = do
    u ← get_vehicle_update answers (answers.vehicle_results v) (unset_update answers v)
    update_vehicles answers vs (add_data v u d)

  -- The end of a step, from the removal of those that have arrived.
  unfoldable pub report :
      Answers Real
      → (departed arrived : List String) → SumoUpdater
      → Result (Results Real × SumoUpdater)
  unfolding erase_names update_vehicles
  report answers departed arrived u = do
    let left = erase_names arrived u.subscribed_vehicles
    data_ ← update_vehicles answers left []
    ok (
      record {
        departed_vehicles = departed;
        arrived_vehicles = arrived;
        update_vehicles = left;
        update_data = data_;
      },
      record u { subscribed_vehicles = left },
    )

  unfoldable pub step : Answers Real → ℤ → SumoUpdater → Result (Results Real × SumoUpdater)
  unfolding names_of as_double subscribe_vehicles report
  step answers current_sim_time u = do
    let simvars = answers.simulation_results
    departed ← names_of (find var_departed_vehicles_ids simvars)
    let u1 = subscribe_vehicles departed u
    sumo_time ← deref (find var_time simvars)
    seconds ← as_double sumo_time
    assert (answers.shows current_sim_time seconds)
    arrived ← names_of (find var_arrived_vehicles_ids simvars)
    report answers departed arrived u1
