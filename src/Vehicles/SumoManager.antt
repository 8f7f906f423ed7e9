-- ===== src/Vehicles/SumoManager.antt =====
-- src/mobility/SumoMobilityManager.cpp, a mobility manager whose vehicles are SUMO's. SUMO's answers
-- after `steps` simulation steps are the parameters `answers` and `is_expecting` (whether the
-- minimal expected number is positive), `id_list` are the vehicles that run at first, and
-- `connect` is the outcome of the launch and the connection. The rest is as in
-- src/mobility/MobilityManager.cpp. The updates of a step are behind a pointer.
pub mod Handing
pub mod Updates
use cosidia.Prelude.{
  pos, ◌+ℤ◌, ℕ, ◌+◌, Bool, true, false, Option, none, some, List, [], ◌∷◌, ◌++◌, String,
  if◌then◌else◌,
}
use cosidia.Prelude.Result.{Result, ok, err, out_of_range, deref, get_future}
use text.Mathlib.Text.{◌==◌ as str_eq}
use cosidia.Core.Clock.{at_millisecond, div_trunc}
use cosidia.Core.Action.{Ref, ObjectId, valid, stub, duration_action, set_type, set_action_data}
use cosidia.Objects.Container.{ObjectContainer}
use cosidia.Objects.Relations.{get_objects_to_delete}
use cosidia.Kernel.{System, M, pure, ◌>>=◌, ◌>>◌, get, put, lift, set_action, update}
use cosidia.Kernel.Schedule.{make_action, schedule_start_handler, get_current_object_list}
use cosidia.Kernel.Execution.{Behaviour, create_self_action}
use cosidia.Vehicles.Factory.{create_object}
use cosidia.Vehicles.IdMapper.{IdMapper, emplace, fetch_vehicle_ids}
use cosidia.Vehicles.Tasks.{Tasks, run_tasks}
use cosidia.Vehicles.Temporary.{TemporaryObject}
use cosidia.Vehicles.Update.{VehicleUpdate, set_update_for_vehicle}
use cosidia.Vehicles.Traci.{Answers}
use cosidia.Vehicles.Sumo.{SumoUpdater, Results, new_updater, init_subscriptions, step}

pub record SumoManager (Real : Type 0) : Type 0 where
  pub id_mapper : IdMapper
  pub future : Option Tasks
  pub updater : Option SumoUpdater
  pub steps : ℕ
  pub updates : Ref → List (String × VehicleUpdate Real)
  pub next_data : ℕ

-- std::map::at
unfoldable pub at_key : String → IdMapper → Result ObjectId
at_key k [] = err out_of_range
at_key k ((j, id) ∷ m) = if str_eq j k then ok id else at_key k m

module _ {Real : Type 0} (zero : Real) (lt : String → String → Bool)
    (free : System (SumoManager Real) → Ref) (answers : ℕ → Answers Real) (is_expecting : ℕ → Bool)
    (id_list : List String) (connect : Result (Unit {0})) where
  abbrev SumoM : Type 0 → Type 0
  SumoM A = M (SumoManager Real) A

  abbrev change : (SumoManager Real → SumoManager Real) → SumoM (Unit {0})
  change f = do s ← get; put (record s { model = f s.model })

  -- mTraci->simulationStep
  simulation_step : SumoM (Unit {0})
  simulation_step = change (λ m. record m { steps = m.steps + 1 })

  -- The vehicle's description holds its name under "id".
  add_vehicle : ObjectContainer → String → SumoM (List TemporaryObject)
  add_vehicle object_container vehicle = do
    change (λ m. record m { id_mapper = emplace lt vehicle stub m.id_mapper })
    s ← get
    create_object "vehicle" (free s) object_container (some (record { id = some vehicle }))

  add_vehicles : ObjectContainer → List String → SumoM (List (List TemporaryObject))
  unfolding add_vehicle
  add_vehicles object_container [] = pure []
  add_vehicles object_container (v ∷ vs) = do
    t ← add_vehicle object_container v
    rest ← add_vehicles object_container vs
    pure (t ∷ rest)

  remove_vehicles : ObjectContainer → List String → SumoM (List ObjectId)
  remove_vehicles object_container [] = pure []
  remove_vehicles object_container (v ∷ vs) = do
    s ← get
    id ← lift (at_key v s.model.id_mapper)
    deleter ← lift (get_objects_to_delete s.objects object_container "vehicle" id)
    rest ← remove_vehicles object_container vs
    pure (deleter ++ rest)

  -- The action that hands a vehicle its update, which is in the data at `p`.
  unfoldable pub update_vehicle : Ref → Ref → Ref → String → ObjectId → SumoM Ref
  update_vehicle o a p v id = do
    change (λ m. record m {
      updates =
          update m.updates p
            (set_update_for_vehicle zero v (λ u. record u { object_id = id }) (m.updates p));
    })
    s ← get
    n ←
        make_action duration_action (at_millisecond (pos 1))
          ((s.actions a).start_time +ℤ (s.actions a).duration +ℤ at_millisecond (pos 1)) id
          (s.objects o).object_id
    s ← get
    n' ← lift (set_action_data p (s.actions n))
    set_action n (set_type "SUMO" n')
    pure n

  unfoldable pub update_vehicles : Ref → Ref → Ref → List String → SumoM (List Ref)
  unfolding update_vehicle
  update_vehicles o a p [] = pure []
  update_vehicles o a p (v ∷ vs) = do
    s ← get
    id ← lift (at_key v s.model.id_mapper)
    new ← (if valid id then (do n ← update_vehicle o a p v id; pure (n ∷ [])) else pure [])
    rest ← update_vehicles o a p vs
    pure (new ++ rest)

  unfoldable pub execute_update : Ref → Ref → ObjectContainer → Results Real → SumoM Tasks
  unfolding add_vehicles remove_vehicles update_vehicles
  execute_update o a object_container results = do
    vehicles ← add_vehicles object_container results.departed_vehicles
    to_delete ← remove_vehicles object_container results.arrived_vehicles
    s ← get
    let p = s.model.next_data
    change (λ m. record m {
      updates = update m.updates p results.update_data;
      next_data = m.next_data + 1;
    })
    actions ← update_vehicles o a p results.update_vehicles
    pure (record {
      actions_to_schedule = actions;
      vehicles_to_add = vehicles;
      objects_to_delete = to_delete;
    })

  next_update : Ref → Ref → SumoM (List Ref)
  next_update o a = do
    s ← get
    n ←
        create_self_action o (at_millisecond (pos 50))
          ((s.actions a).start_time +ℤ at_millisecond (pos 100))
    pure (n ∷ [])

  unfoldable pub do_vehicle_update : Ref → Ref → ObjectContainer → SumoM Tasks
  unfolding execute_update next_update simulation_step
  do_vehicle_update o a object_list = do
    s ← get
    m ← lift (fetch_vehicle_ids s.objects object_list s.model.id_mapper)
    change (λ model. record model { id_mapper = m })
    updater ← lift (deref s.model.updater)
    (results, updater') ←
        lift (step (answers s.model.steps) (div_trunc (s.actions a).start_time 1_000_000) updater)
    change (λ model. record model { updater = some updater' })
    tasks ← execute_update o a object_list results
    actions ← (if is_expecting s.model.steps then next_update o a else pure [])
    simulation_step
    pure (record tasks { actions_to_schedule = tasks.actions_to_schedule ++ actions })

  sumo_init_object : Ref → Ref → SumoM (Unit {0})
  unfolding simulation_step
  sumo_init_object o a = do
    s ← get
    let id = (s.objects o).object_id
    n ←
        make_action duration_action (at_millisecond (pos 10))
          ((s.actions a).start_time +ℤ at_millisecond (pos 100)) id id
    schedule_start_handler n
    lift connect
    updater ← lift (init_subscriptions id_list new_updater)
    change (λ m. record m { updater = some updater })
    simulation_step

  sumo_start_execution : Ref → Ref → SumoM (Unit {0})
  unfolding do_vehicle_update
  sumo_start_execution o a = do
    object_list ← get_current_object_list
    tasks ← do_vehicle_update o a object_list.container
    change (λ m. record m { future = some tasks })

  sumo_end_execution : Ref → Ref → SumoM (Unit {0})
  sumo_end_execution o a = do
    s ← get
    tasks ← lift (get_future s.model.future)
    change (λ m. record m { future = none })
    run_tasks a tasks

  unfoldable pub sumo_manager : Behaviour (SumoManager Real)
  unfolding sumo_start_execution sumo_end_execution sumo_init_object
  sumo_manager = record {
    start_execution = sumo_start_execution;
    end_execution = sumo_end_execution;
    init_object = sumo_init_object;
  }
