-- ===== src/Vehicles/Sumo/Subscribed.antt =====
-- Which vehicles a step of src/mobility/SumoUpdater.cpp subscribes to and reports.
use cosidia.Prelude.{
  ℤ, ◌≡◌, refl, arith, true, not, ◌&&◌, ◌||◌, List, [], ◌∷◌, String, some, if◌then◌else◌, ◌∙◌, ◌⊎◌,
  inl, inr, Bool-cases, subst, sym, Option, none, pos,
}
use cosidia.Prelude.Result.{Result, ok, >>=-eq-ok, ◌>>=◌, ◌>>◌, deref, assert}
use text.Mathlib.Text.{◌==◌ as str_eq}
use text.Mathlib.TextEquality.{eq_iff}
use cosidia.Vehicles.Update.{
  VehicleUpdate, lookup, add_data, set_update_for_vehicle, get_update_for_vehicle,
}
use cosidia.Vehicles.Sumo.{
  SumoUpdater, Results, erase_names, subscribe_vehicle, subscribe_vehicles, update_vehicles, step,
  report, get_vehicle_update, unset_update,
}
use cosidia.Vehicles.Sumo
use cosidia.Vehicles.Traci
use cosidia.Vehicles.Traci.{
  Answers, TraciResult, var_time, var_arrived_vehicles_ids, var_departed_vehicles_ids,
}
use cosidia.Std.Names.{
  has, erase_name, IsUnique, has-insert_name, insert_name-IsUnique, has-erase_name,
  erase_name-IsUnique,
}
use cosidia.Std.Map.{find}

has-erase_names :
    (v : String) (ks s : List String)
    → IsUnique s
    → (has v (erase_names ks s) ≡ (has v s && not (has v ks))) × IsUnique (erase_names ks s)
unfolding has erase_names
has-erase_names v [] s u = (ground arith, u)
has-erase_names v (k ∷ ks) s u =
    let (e, w) = has-erase_names v ks (erase_name k s) (erase_name-IsUnique k s u) in
    (ground (arith, e, has-erase_name v k s u), w)

has-subscribe_vehicles :
    (v : String) (ids : List String) (u : SumoUpdater)
    → IsUnique u.subscribed_vehicles
    → (has v (subscribe_vehicles ids u).subscribed_vehicles
        ≡ (has v u.subscribed_vehicles || has v ids))
      × IsUnique (subscribe_vehicles ids u).subscribed_vehicles
unfolding has subscribe_vehicles subscribe_vehicle
has-subscribe_vehicles v [] u h = (ground arith, h)
has-subscribe_vehicles v (id ∷ ids) u h =
    let (e, w) =
      has-subscribe_vehicles v ids (subscribe_vehicle id u)
        (insert_name-IsUnique id u.subscribed_vehicles h) in
    (ground (arith, e, has-insert_name v id u.subscribed_vehicles), w)

ok-inj : {A : Type 0} (a b : A) → ok a ≡ ok b → a ≡ b
ok-inj a b h = cc

module _ {Real : Type 0} where
  lookup-add_data :
      (v k : String) (u : VehicleUpdate Real) (d : List (String × VehicleUpdate Real))
      → lookup v (add_data k u d) ≡ (if str_eq k v then some u else lookup v d)
  unfolding lookup add_data set_update_for_vehicle
  lookup-add_data v k u [] = ground arith
  lookup-add_data v k u ((j, w) ∷ d) =
      ground (arith, lookup-add_data v k u d, eq_iff j k, eq_iff j v, eq_iff k v)

  set_variable_vehicle :
      (answers : Answers Real) (k : ℤ) (r : TraciResult Real) (u u' : VehicleUpdate Real)
      → Sumo.set_variable answers k r u ≡ ok u'
      → u'.vehicle ≡ u.vehicle
  unfolding Sumo.set_variable Sumo.set_speed Sumo.set_position Sumo.set_heading
  set_variable_vehicle answers k (Traci.string_list l) u u' h = ground (arith, h)
  set_variable_vehicle answers k (Traci.double d) u u' h = ground (arith, h)
  set_variable_vehicle answers k (Traci.position x y z) u u' h = ground (arith, h)
  set_variable_vehicle answers k Traci.other u u' h = ground (arith, h)

  get_vehicle_update_vehicle :
      (answers : Answers Real) (vars : List (ℤ × TraciResult Real)) (u u' : VehicleUpdate Real)
      → get_vehicle_update answers vars u ≡ ok u'
      → u'.vehicle ≡ u.vehicle
  unfolding get_vehicle_update
  get_vehicle_update_vehicle answers [] u u' h = ground (arith, h)
  get_vehicle_update_vehicle answers ((k, r) ∷ vars) u u' h =
      let (w, e, f) =
        >>=-eq-ok (Sumo.set_variable answers k r u) (λ w. get_vehicle_update answers vars w) h in
      get_vehicle_update_vehicle answers vars w u' f ∙ set_variable_vehicle answers k r u w e

  -- The vehicle has an update of its own.
  abbrev pub Known : String → List (String × VehicleUpdate Real) → Type 0
  Known v d = (u : VehicleUpdate Real) × (get_update_for_vehicle v d ≡ ok u) × (u.vehicle ≡ v)

  add_data-Known :
      (v k : String) (u : VehicleUpdate Real) (d : List (String × VehicleUpdate Real))
      → u.vehicle ≡ k
      → (str_eq k v ≡ true) ⊎ Known v d
      → Known v (add_data k u d)
  unfolding get_update_for_vehicle
  add_data-Known v k u d e (inl same) =
      (u, ground (arith, lookup-add_data v k u d, same), ground (arith, e, eq_iff k v, same))
  add_data-Known v k u d e (inr (w, f, g)) = elim (Bool-cases (str_eq k v)) [
    | inl same ↦
        (u, ground (arith, lookup-add_data v k u d, same), ground (arith, e, eq_iff k v, same))
    | inr other ↦ (w, ground (arith, lookup-add_data v k u d, other, f), g)
  ]

  turn :
      (v w : String) (vs : List String) (u : VehicleUpdate Real)
      (d : List (String × VehicleUpdate Real))
      → u.vehicle ≡ w
      → (has v (w ∷ vs) ≡ true) ⊎ Known v d
      → (has v vs ≡ true) ⊎ Known v (add_data w u d)
  unfolding has
  turn v w vs u d e (inl h) = elim (Bool-cases (str_eq w v)) [
    | inl same ↦ inr (add_data-Known v w u d e (inl same))
    | inr other ↦ inl (ground (arith, h, other))
  ]
  turn v w vs u d e (inr k) = inr (add_data-Known v w u d e (inr k))

  update_vehicles-Known :
      (answers : Answers Real) (v : String) (vs : List String)
      (d d' : List (String × VehicleUpdate Real))
      → update_vehicles answers vs d ≡ ok d'
      → (has v vs ≡ true) ⊎ Known v d
      → Known v d'
  unfolding update_vehicles has
  update_vehicles-Known answers v [] d d' h (inl k) = ground (arith, k)
  update_vehicles-Known answers v [] d d' h (inr k) =
      let (u, e, f) = k in (u, ground (arith, h, e), f)
  update_vehicles-Known answers v (w ∷ vs) d d' h k =
      let start = unset_update answers w in
      let (u, e, f) =
        >>=-eq-ok (get_vehicle_update answers (answers.vehicle_results w) start)
          (λ u. update_vehicles answers vs (add_data w u d)) h in
      update_vehicles-Known answers v vs (add_data w u d) d' f (
        turn v w vs u d (get_vehicle_update_vehicle answers (answers.vehicle_results w) start u e)
          k)

  -- SUMO answers with the list, or with no such variable, and the list is empty.
  abbrev pub Lists : Option (TraciResult Real) → List String → Type 0
  Lists answer l = (answer ≡ some (Traci.string_list l)) ⊎ ((answer ≡ none) × (l ≡ []))

  names_of-Lists :
      (answer : Option (TraciResult Real)) (l : List String)
      → Sumo.names_of answer ≡ ok l
      → Lists answer l
  unfolding Sumo.names_of Sumo.as_string_list
  names_of-Lists none l h = inr (refl, ground (arith, h))
  names_of-Lists (some (Traci.string_list k)) l h = inl (ground (arith, h))
  names_of-Lists (some (Traci.double d)) l h = ground (arith, h)
  names_of-Lists (some (Traci.position x y z)) l h = ground (arith, h)
  names_of-Lists (some Traci.other) l h = ground (arith, h)

  -- What a step reports, and leaves subscribed, of those that have departed and arrived.
  abbrev pub Reports : SumoUpdater → SumoUpdater → Results Real → Type 0
  Reports u u' res =
      IsUnique u'.subscribed_vehicles
      × (res.update_vehicles ≡ u'.subscribed_vehicles)
      × ((v : String)
          → (has v u'.subscribed_vehicles ≡ (
              (has v u.subscribed_vehicles || has v res.departed_vehicles)
              && not (has v res.arrived_vehicles)))
            × (has v u'.subscribed_vehicles ≡ true → Known v res.update_data))

  abbrev Reported :
      SumoUpdater → (departed arrived : List String) → Results Real × SumoUpdater → Type 0
  Reported u departed arrived r =
      Reports u r.1 r.0 × (r.0.departed_vehicles ≡ departed) × (r.0.arrived_vehicles ≡ arrived)

  report_subscribes :
      (answers : Answers Real) (u u' : SumoUpdater) (departed arrived : List String)
      (res : Results Real)
      → IsUnique u.subscribed_vehicles
      → report answers departed arrived (subscribe_vehicles departed u) ≡ ok (res, u')
      → Reports u u' res × (res.departed_vehicles ≡ departed) × (res.arrived_vehicles ≡ arrived)
  unfolding report
  report_subscribes answers u u' departed arrived res unique h =
      let u1 = subscribe_vehicles departed u in
      let left = erase_names arrived u1.subscribed_vehicles in
      let results : List (String × VehicleUpdate Real) → Results Real = λ d. record {
        departed_vehicles = departed;
        arrived_vehicles = arrived;
        update_vehicles = left;
        update_data = d;
      } in
      let (d, g, k) =
        >>=-eq-ok (update_vehicles answers left [])
          (λ d. ok (results d, record u1 { subscribed_vehicles = left })) h in
      subst (Reported u departed arrived)
        (ok-inj (results d, record u1 { subscribed_vehicles = left }) (res, u') k)
        (
          (
            (has-erase_names "" arrived u1.subscribed_vehicles
                (has-subscribe_vehicles "" departed u unique).1).1,
            refl,
            λ v. (
              ground (
                arith,
                has-erase_names v arrived u1.subscribed_vehicles
                    (has-subscribe_vehicles v departed u unique).1,
                has-subscribe_vehicles v departed u unique,
              ),
              λ e. update_vehicles-Known answers v left [] d g (inl e),
            ),
          ),
          refl,
          refl,
        )

  -- Where no vehicle is subscribed to twice and a step of the updater returns a result, then still none
  -- is; it reports as departed those that SUMO lists under the variable 116, and as arrived those
  -- under 122, none where SUMO does not answer the variable; subscribed to are exactly the vehicles
  -- that were, or have departed, and have not arrived;
  -- these are the vehicles to update; and each has an update in the action data, under its own
  -- name, so that its lookup finds one.
  pub step_subscribes :
      (answers : Answers Real) (t : ℤ) (u u' : SumoUpdater) (res : Results Real)
      → IsUnique u.subscribed_vehicles
      → step answers t u ≡ ok (res, u')
      → Lists (find (pos 116) answers.simulation_results) res.departed_vehicles
        × Lists (find (pos 122) answers.simulation_results) res.arrived_vehicles
        × Reports u u' res
  unfolding step
  step_subscribes answers t u u' res unique h =
      let simvars = answers.simulation_results in
      let arrivals = Sumo.names_of (find var_arrived_vehicles_ids simvars) in
      let k4 : List String → List String → Result (Results Real × SumoUpdater) =
        λ d a. report answers d a (subscribe_vehicles d u) in
      let k2 : List String → Real → Result (Results Real × SumoUpdater) =
        λ d seconds. assert (answers.shows t seconds) >> (arrivals >>= k4 d) in
      let k1 : List String → Result (Results Real × SumoUpdater) =
        λ d. deref (find var_time simvars) >>= λ r. Sumo.as_double r >>= k2 d in
      let (d, e, h1) = >>=-eq-ok (Sumo.names_of (find var_departed_vehicles_ids simvars)) k1 h in
      let (r, _, h2) =
        >>=-eq-ok (deref (find var_time simvars)) (λ r. Sumo.as_double r >>= k2 d) h1 in
      let (seconds, _, h3) = >>=-eq-ok (Sumo.as_double r) (k2 d) h2 in
      let (_, _, h4) = >>=-eq-ok (assert (answers.shows t seconds)) (λ _. arrivals >>= k4 d) h3 in
      let (a, f, h5) = >>=-eq-ok arrivals (k4 d) h4 in
      let (reports, same_d, same_a) = report_subscribes answers u u' d a res unique h5 in
      (
        subst (Lists (find var_departed_vehicles_ids simvars)) (sym same_d) (names_of-Lists _ d e),
        subst (Lists (find var_arrived_vehicles_ids simvars)) (sym same_a) (names_of-Lists _ a f),
        reports,
      )
