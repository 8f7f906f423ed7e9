-- ===== src/Vehicles/Vehicle/Updates.antt =====
-- The behaviour of src/objects/VehicleObject.cpp over a whole update.
use cosidia.Prelude.{◌≡◌, ◌≢◌, arith, ap, true, some, none, String, ℕ, ℤ, eqb_ℤ}
use cosidia.Prelude.Result.{ok}
use text.Mathlib.Text.{◌==◌ as str_eq}
use cosidia.Utils.ReadOnly.{get as get_value}
use cosidia.Utils.ContextContainer.{get_element, swap}
use cosidia.Core.Action.{Ref, get_end_time}
use cosidia.Objects.Object.{vehicle}
use cosidia.Kernel.{System, ◌>>◌, update, update_self}
use cosidia.Vehicles.Update.{VehicleUpdate, get_update_for_vehicle}
use cosidia.Vehicles.Vehicle
use cosidia.Vehicles.Vehicle.{
  Vehicles, VehicleContext, vehicle_object, updated_context, execute_sumo_update, swap_context,
}

module _ {Real : Type 0} (zero : Real) (random : ℕ → ℤ) where
  -- On the core's thread, where a "SUMO" action carries an update of a vehicle, under the external
  -- id and with the object id of that vehicle, which has a context, its start followed by its end is accepted, the
  -- vehicle's context is then the update's with the action's end time, its future is empty again, and no
  -- other vehicle's context is changed.
  pub update_arrives :
      (o a d : Ref) (id : String) (u : VehicleUpdate Real) (old : VehicleContext Real)
      (s : System (Vehicles Real))
      → s.on_core_thread ≡ true
      → (s.model.contexts o).element ≡ some old
      → (s.actions a).action_type ≡ "SUMO"
      → (s.actions a).action_data ≡ some d
      → (s.objects o).object_class ≡ vehicle (record { element = some id })
      → get_update_for_vehicle id (s.model.updates d) ≡ ok u
      → eqb_ℤ u.object_id (s.objects o).object_id ≡ true
      → (s' : System (Vehicles Real)) × (((vehicle_object zero random).start_execution o a
              >> (vehicle_object zero random).end_execution o a)
            s
          ≡ ok (tt, s'))
        × ((s'.model.contexts o).element
            ≡ some (updated_context zero random (get_end_time (s.actions a)) u))
        × (s'.model.futures o ≡ none)
        × ((p : Ref) → p ≢ o → s'.model.contexts p ≡ s.model.contexts p)
  unfolding vehicle_object Vehicle.vehicle_start_execution Vehicle.vehicle_end_execution
      execute_sumo_update Vehicle.swap_context Vehicle.external_id get_value get_element swap
  update_arrives o a d id u old s on_core k t h c g e =
      let sumo : str_eq (s.actions a).action_type "SUMO" ≡ true = ap (λ n. str_eq n "SUMO") t in
      let result = updated_context zero random (get_end_time (s.actions a)) u in
      (
        record s {
          model = record s.model {
            futures = update (update s.model.futures o (some result)) o none;
            contexts = update s.model.contexts o (record { element = some result });
          };
        },
        ground (arith, update_self s.model.futures o (some result), on_core, k, sumo, h, c, g, e),
        ground arith,
        ground arith,
        λ p other. ground (arith, other),
      )
