-- ===== src/Vehicles/Traci.antt =====
-- What SUMO answers through TraCI, as far as src/mobility/SumoUpdater.cpp reads it.
use cosidia.Prelude.{ℤ, pos, Bool, List, String}

-- libsumo::TraCIResult with the subclasses that the code casts to.
pub data TraciResult (Real : Type 0) : Type 0 where
  string_list : List String → TraciResult Real
  double : Real → TraciResult Real
  position : (x y z : Real) → TraciResult Real
  other : TraciResult Real

-- The constants of src/traci/sumo/libsumo/TraCIConstants.h.
abbrev pub var_speed : ℤ
var_speed = pos 64

abbrev pub var_position : ℤ
var_position = pos 66

abbrev pub var_angle : ℤ
var_angle = pos 67

abbrev pub var_time : ℤ
var_time = pos 102

abbrev pub var_departed_vehicles_ids : ℤ
var_departed_vehicles_ids = pos 116

abbrev pub var_teleport_starting_vehicles_ids : ℤ
var_teleport_starting_vehicles_ids = pos 118

abbrev pub var_arrived_vehicles_ids : ℤ
var_arrived_vehicles_ids = pos 122

abbrev pub var_delta_t : ℤ
var_delta_t = pos 123

-- Numbers of a VehicleUpdate that have no initialiser.
pub record Memory (Real : Type 0) : Type 0 where
  pub longitude : Real
  pub latitude : Real
  pub heading : Real
  pub speed : Real

-- What one step of SUMO answers. `convert_geo` gives the longitude and the latitude of a position,
-- and `shows` is whether a time in milliseconds is the number of seconds. `memory` is no answer: it is
-- what the numbers of the update of a vehicle hold before they are set.
pub record Answers (Real : Type 0) : Type 0 where
  pub zero : Real
  pub simulation_results : List (ℤ × TraciResult Real)
  pub vehicle_results : String → List (ℤ × TraciResult Real)
  pub convert_geo : Real × Real × Real → Real × Real
  pub shows : ℤ → Real → Bool
  pub memory : String → Memory Real
