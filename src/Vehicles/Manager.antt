-- ===== src/Vehicles/Manager.antt =====
-- src/mobility/MobilityManager.cpp. The manager's state is its map of external ids, its update count
-- and the result of its fiber, which is run when it is launched. `to_string` is
-- std::to_string, `lt` compares two keys, and `free` finds a pointer from which on none leads to
-- an object yet.
use cosidia.Prelude.{
  ltb, pos, ◌+ℤ◌, ltb_ℤ, ℕ, ◌+◌, ◌%◌, ◌==◌, Bool, ◌&&◌, Option, none, some, List, [], ◌∷◌, String,
  if◌then◌else◌,
}
use Prim.Native.String
use cosidia.Prelude.Result.{get_future}
use cosidia.Core.Clock.{at_second, at_millisecond}
use cosidia.Core.Action.{Ref, ObjectId, stub, duration_action, set_type}
use cosidia.Objects.Container.{ObjectContainer}
use cosidia.Objects.Relations.{get_objects_to_delete}
use cosidia.Kernel.{System, M, pure, ◌>>=◌, ◌>>◌, get, put, lift, set_action}
use cosidia.Kernel.Schedule.{make_action, schedule_start_handler, get_current_object_list}
use cosidia.Kernel.Execution.{Behaviour}
use cosidia.Vehicles.Temporary.{TemporaryObject}
use cosidia.Vehicles.Tasks.{Tasks, run_tasks}
use cosidia.Vehicles.Factory.{create_object}
use cosidia.Vehicles.IdMapper.{IdMapper, emplace, erase_keys, collect_removals, fetch_vehicle_ids}

pub record Manager : Type 0 where
  pub id_mapper : IdMapper
  pub update_count : ℕ
  pub future : Option Tasks

module _ (to_string : ℕ → String) (lt : String → String → Bool) (free : System Manager → Ref) where
  set_mapper : IdMapper → M Manager (Unit {0})
  set_mapper m = do s ← get; put (record s { model = record s.model { id_mapper = m } })

  -- The conditions on the update count for a new vehicle and for the removal of vehicles.
  unfoldable pub adds_vehicle : ℕ → Bool
  adds_vehicle n = n % 10 == 0 && ltb n 100

  unfoldable pub removes_vehicles : ℕ → Bool
  removes_vehicles n = n % 5 == 0 && ltb n 105 && ltb 10 n

  add_vehicle : ObjectContainer → M Manager (List (List TemporaryObject))
  unfolding set_mapper
  add_vehicle object_list = do
    s ← get
    let id = String.◌++◌ "abc." (to_string s.model.update_count)
    vehicle ← create_object "vehicle" (free s) object_list (some (record { id = some "abc.0" }))
    s ← get
    set_mapper (emplace lt id stub s.model.id_mapper)
    pure (vehicle ∷ [])

  next_update : Ref → Ref → M Manager (List Ref)
  next_update o a = do
    s ← get
    let id = (s.objects o).object_id
    n ←
        make_action duration_action (at_millisecond (pos 50))
          ((s.actions a).start_time +ℤ at_millisecond (pos 100)) id id
    s ← get
    set_action n (set_type "MobilityManager:Update" (s.actions n))
    pure (n ∷ [])

  remove_vehicles : ObjectContainer → M Manager (List ObjectId)
  unfolding set_mapper
  remove_vehicles object_list = do
    s ← get
    (to_delete, keys) ← lift (
        collect_removals (get_objects_to_delete s.objects object_list "vehicle") s.model.id_mapper
          [])
    set_mapper (erase_keys keys s.model.id_mapper)
    pure to_delete

  unfoldable pub do_vehicle_update : Ref → Ref → ObjectContainer → M Manager Tasks
  unfolding set_mapper adds_vehicle removes_vehicles add_vehicle next_update remove_vehicles
  do_vehicle_update o a object_list = do
    s ← get
    m ← lift (fetch_vehicle_ids s.objects object_list s.model.id_mapper)
    set_mapper m
    let count = s.model.update_count
    vehicles ← (if adds_vehicle count then add_vehicle object_list else pure [])
    s ← get
    actions ←
        (if ltb_ℤ (s.actions a).start_time (at_second (pos 20)) then next_update o a else pure [])
    to_delete ← (if removes_vehicles count then remove_vehicles object_list else pure [])
    s ← get
    put (record s { model = record s.model { update_count = s.model.update_count + 1 } })
    pure (record {
      actions_to_schedule = actions;
      vehicles_to_add = vehicles;
      objects_to_delete = to_delete;
    })

  manager_start_execution : Ref → Ref → M Manager (Unit {0})
  unfolding do_vehicle_update
  manager_start_execution o a = do
    object_list ← get_current_object_list
    tasks ← do_vehicle_update o a object_list.container
    s ← get
    put (record s { model = record s.model { future = some tasks } })

  manager_end_execution : Ref → Ref → M Manager (Unit {0})
  unfolding run_tasks
  manager_end_execution o a = do
    s ← get
    tasks ← lift (get_future s.model.future)
    put (record s { model = record s.model { future = none } })
    run_tasks a tasks

  manager_init_object : Ref → Ref → M Manager (Unit {0})
  manager_init_object o a = do
    s ← get
    let id = (s.objects o).object_id
    n ←
        make_action duration_action (at_millisecond (pos 50))
          ((s.actions a).start_time +ℤ at_millisecond (pos 100)) id id
    schedule_start_handler n

  unfoldable pub manager : Behaviour Manager
  unfolding manager_start_execution manager_end_execution manager_init_object
  manager = record {
    start_execution = manager_start_execution;
    end_execution = manager_end_execution;
    init_object = manager_init_object;
  }
