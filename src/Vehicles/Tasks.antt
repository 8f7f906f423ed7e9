-- ===== src/Vehicles/Tasks.antt =====
-- What the mobility managers of src/mobility leave for the core, and how the end of their execution
-- in src/mobility/MobilityManager.cpp carries it out.
use cosidia.Prelude.{List, [], ◌∷◌}
use cosidia.Core.Action.{Ref, ObjectId, get_end_time}
use cosidia.Kernel.{M, pure, ◌>>=◌, ◌>>◌, get}
use cosidia.Kernel.Schedule.{schedule_all, remove_object_from_simulation}
use cosidia.Vehicles.Temporary.{TemporaryObject, resolve_and_start}

-- MobilityManagerTasks
pub record Tasks : Type 0 where
  pub actions_to_schedule : List Ref
  pub vehicles_to_add : List (List TemporaryObject)
  pub objects_to_delete : List ObjectId

module _ {X : Type 0} where
  add_all_vehicles : Ref → List (List TemporaryObject) → M X (Unit {0})
  add_all_vehicles a [] = pure tt
  add_all_vehicles a (v ∷ vs) = do
    s ← get
    resolve_and_start (get_end_time (s.actions a)) v
    add_all_vehicles a vs

  remove_all : List ObjectId → M X (Unit {0})
  remove_all [] = pure tt
  remove_all (id ∷ ids) = do remove_object_from_simulation id; remove_all ids

  unfoldable pub run_tasks : Ref → Tasks → M X (Unit {0})
  unfolding add_all_vehicles remove_all
  run_tasks a tasks = do
    add_all_vehicles a tasks.vehicles_to_add
    schedule_all tasks.actions_to_schedule
    remove_all tasks.objects_to_delete
