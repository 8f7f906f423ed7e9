-- ===== src/Vehicles/Update.antt =====
-- src/actionData/VehicleUpdateActionData.hpp: the updates of one step, by the vehicles' external ids.
-- `Real` stands for `double`. The order of the map is not observed.
use cosidia.Prelude.{Option, none, some, List, [], ◌∷◌, String, if◌then◌else◌}
use cosidia.Prelude.Result.{Result, deref}
use text.Mathlib.Text.{◌==◌ as str_eq}
use cosidia.Core.Action.{ObjectId, stub}

pub record VehicleUpdate (Real : Type 0) : Type 0 where
  pub position : Real × Real × Real
  pub longitude : Real
  pub latitude : Real
  pub heading : Real
  pub speed : Real
  pub vehicle : String
  pub object_id : ObjectId

-- A new update: `zero` is 0.0.
abbrev pub new_update : {Real : Type 0} → Real → VehicleUpdate Real
new_update zero = record {
  position = (zero, zero, zero);
  longitude = zero;
  latitude = zero;
  heading = zero;
  speed = zero;
  vehicle = "";
  object_id = stub;
}

module _ {Real : Type 0} where
  unfoldable pub lookup : String → List (String × VehicleUpdate Real) → Option (VehicleUpdate Real)
  lookup k [] = none
  lookup k ((j, u) ∷ m) = if str_eq j k then some u else lookup k m

  -- The end iterator is dereferenced where the key is missing.
  unfoldable pub get_update_for_vehicle :
      String → List (String × VehicleUpdate Real) → Result (VehicleUpdate Real)
  unfolding lookup
  get_update_for_vehicle k m = deref (lookup k m)

  -- A write through the reference that setUpdateForVehicle returns.
  unfoldable pub set_update_for_vehicle :
      Real
      → String
      → (VehicleUpdate Real → VehicleUpdate Real)
      → List (String × VehicleUpdate Real)
      → List (String × VehicleUpdate Real)
  set_update_for_vehicle zero k f [] = (k, f (new_update zero)) ∷ []
  set_update_for_vehicle zero k f ((j, u) ∷ m) =
      if str_eq j k then (j, f u) ∷ m else (j, u) ∷ set_update_for_vehicle zero k f m

  unfoldable pub add_data :
      String
      → VehicleUpdate Real
      → List (String × VehicleUpdate Real)
      → List (String × VehicleUpdate Real)
  unfolding set_update_for_vehicle
  add_data k u m = set_update_for_vehicle u.speed k (λ _. u) m
