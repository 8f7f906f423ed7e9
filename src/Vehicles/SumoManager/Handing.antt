-- ===== src/Vehicles/SumoManager/Handing.antt =====
-- What src/mobility/SumoMobilityManager.cpp does to hand one vehicle its update.
use cosidia.Prelude.{
  pos, ◌+ℤ◌, leb_ℤ, ℕ, ◌+◌, ◌≡◌, refl, inl, inr, arith, Bool, true, false, Bool-cases, some, none,
  List, [], ◌∷◌, String,
}
use cosidia.Prelude.Result.{Result, ok, ◌>>=◌}
use text.Mathlib.Text.{◌==◌ as str_eq}
use text.Mathlib.TextEquality.{eq_iff}
use cosidia.Core.Clock.{at_millisecond, zero_time}
use cosidia.Core.Action.{Ref, ObjectId, Action, duration_action, set_action_data, create, valid}
use cosidia.Core.StateMachine.{waiting}
use cosidia.Kernel.{System, update, update_self}
use cosidia.Kernel.Schedule.{make_action}
use cosidia.Vehicles.Traci.{Answers}
use cosidia.Vehicles.Update.{
  VehicleUpdate, new_update, lookup, get_update_for_vehicle, set_update_for_vehicle,
}
use cosidia.Vehicles.SumoManager.{SumoManager, at_key, update_vehicle, update_vehicles}

-- The action for a vehicle: it starts one millisecond after the end of `ended`.
abbrev pub hand_over : Action → ObjectId → Ref → ObjectId → Action
hand_over ended generator p id = record {
  action_class = duration_action;
  duration = at_millisecond (pos 1);
  start_time = ended.start_time +ℤ ended.duration +ℤ at_millisecond (pos 1);
  affected = id;
  generating = generator;
  action_id = 0;
  action_type = "SUMO";
  action_data = some p;
  state = waiting;
}

module _ {Real : Type 0} where
  pub lookup-set_update_for_vehicle :
      (zero : Real) (v k : String) (f : VehicleUpdate Real → VehicleUpdate Real)
      (d : List (String × VehicleUpdate Real))
      → str_eq k v ≡ false
      → lookup v (set_update_for_vehicle zero k f d) ≡ lookup v d
  unfolding lookup set_update_for_vehicle
  lookup-set_update_for_vehicle zero v k f [] h = ground (arith, h)
  lookup-set_update_for_vehicle zero v k f ((j, w) ∷ d) h =
      ground
        (arith, lookup-set_update_for_vehicle zero v k f d h, eq_iff j k, eq_iff k v, eq_iff j v, h)

  -- The vehicle's update is there, and holds the id.
  abbrev pub Holds : String → ObjectId → List (String × VehicleUpdate Real) → Type 0
  Holds v id d = (u : VehicleUpdate Real) × (get_update_for_vehicle v d ≡ ok u) × (u.object_id ≡ id)

  pub set_update_for_vehicle-Holds :
      (zero : Real) (v : String) (id : ObjectId) (d : List (String × VehicleUpdate Real))
      → Holds v id (set_update_for_vehicle zero v (λ u. record u { object_id = id }) d)
  unfolding lookup set_update_for_vehicle get_update_for_vehicle
  set_update_for_vehicle-Holds zero v id [] =
      (record (new_update zero) { object_id = id }, ground (arith, eq_iff v v), refl)
  set_update_for_vehicle-Holds zero v id ((j, w) ∷ d) = elim (Bool-cases (str_eq j v)) [
    | inl same ↦ (record w { object_id = id }, ground (arith, same), refl)
    | inr other ↦
        let (u, e, f) = set_update_for_vehicle-Holds zero v id d in (u, ground (arith, other, e), f)
  ]

  -- The system after the update of one vehicle.
  unfoldable pub handed :
      Real
      → System (SumoManager Real)
      → Ref
      → Ref
      → Ref
      → String
      → ObjectId
      → System (SumoManager Real)
  handed zero s o a p v id =
      let new = hand_over (s.actions a) (s.objects o).object_id p id in
      record s {
        actions =
            update
              (update s.actions s.next_action
                (record new { action_type = "default"; action_data = none }))
              s.next_action new;
        next_action = s.next_action + 1;
        model = record s.model {
          updates = update s.model.updates p (
              set_update_for_vehicle zero v (λ u. record u { object_id = id }) (s.model.updates p));
        };
      }

module _ {Real : Type 0} (zero : Real) (lt : String → String → Bool)
    (free : System (SumoManager Real) → Ref) (answers : ℕ → Answers Real) (is_expecting : ℕ → Bool)
    (id_list : List String) (connect : Result (Unit {0})) where
  update_vehicle-handed :
      (o a p : Ref) (v : String) (id : ObjectId) (s : System (SumoManager Real))
      → valid id ≡ true
      → leb_ℤ zero_time (hand_over (s.actions a) (pos 0) p id).start_time ≡ true
      → update_vehicle zero lt free answers is_expecting id_list connect o a p v id s
        ≡ ok (s.next_action, handed zero s o a p v id)
  unfolding update_vehicle make_action create set_action_data handed
  update_vehicle-handed o a p v id s h z = ground (
    arith,
    h,
    z,
    update_self s.actions s.next_action
        (record (hand_over (s.actions a) (s.objects o).object_id p id) {
          action_type = "default";
          action_data = none;
        }),
  )

  pub update_vehicles-known :
      (o a p : Ref) (v : String) (vs : List String) (id : ObjectId) (s : System (SumoManager Real))
      → at_key v s.model.id_mapper ≡ ok id
      → valid id ≡ true
      → leb_ℤ zero_time (hand_over (s.actions a) (pos 0) p id).start_time ≡ true
      → update_vehicles zero lt free answers is_expecting id_list connect o a p (v ∷ vs) s ≡ (
          update_vehicles zero lt free answers is_expecting id_list connect o a p vs
            (handed zero s o a p v id)
          >>= λ (rest, s'). ok (s.next_action ∷ rest, s'))
  unfolding update_vehicles
  update_vehicles-known o a p v vs id s k h z =
      ground (arith, k, h, update_vehicle-handed o a p v id s h z)

  pub update_vehicles-unknown :
      (o a p : Ref) (v : String) (vs : List String) (id : ObjectId) (s : System (SumoManager Real))
      → at_key v s.model.id_mapper ≡ ok id
      → valid id ≡ false
      → update_vehicles zero lt free answers is_expecting id_list connect o a p (v ∷ vs) s ≡ (
          update_vehicles zero lt free answers is_expecting id_list connect o a p vs s
          >>= λ (rest, s'). ok (rest, s'))
  unfolding update_vehicles
  update_vehicles-unknown o a p v vs id s k h = ground (arith, k, h)
