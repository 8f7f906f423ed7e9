-- ===== src/Start/Simulation.antt =====
-- src/objects/SimulationManager.cpp and src/objects/SimulationStarter.cpp. `model` is the entry
-- "model" under "simulation" of the configuration, and `free` is a pointer from which on none leads
-- to an object yet.
use cosidia.Prelude.{pos, ◌+◌, Option, none, some, List, [], ◌∷◌, String, if◌then◌else◌}
use cosidia.Prelude.Result.{Result, ok, err, runtime_error}
use text.Mathlib.Text.{◌==◌ as str_eq}
use cosidia.Core.Clock.{at_second}
use cosidia.Core.Action.{Ref, ObjectId, init_action, root}
use cosidia.Objects.Container.{add_to_object_container}
use cosidia.Objects.Object.{new_object, plain, add_parent, set_object_id}
use cosidia.Kernel.{M, pure, ◌>>=◌, ◌>>◌, get, lift, set_object, set_core}
use cosidia.Kernel.Schedule.{
  get_next_object_id, add_unique_object, make_action, schedule_start_handler,
}

-- SimulationStarter: the names of the objects that it creates, a SumoMobilityManager and a Radio.
abbrev pub get_v2x : List String
get_v2x = "MobilityManager" ∷ "Radio" ∷ []

abbrev pub get_phold : List String
get_phold = []

unfoldable pub get_simulation_starter_objects : Option String → Result (List String)
get_simulation_starter_objects none = ok get_v2x
get_simulation_starter_objects (some model) =
    if str_eq model "v2x"
    then ok get_v2x
    else if str_eq model "phold"
    then ok get_phold
    else err (runtime_error "SimulationStarter: model specified in config is unknown")

module _ {X : Type 0} where
  unfoldable pub start_and_schedule_object : ObjectId → Ref → M X (Unit {0})
  start_and_schedule_object manager_id obj = do
    s ← get
    set_object obj (add_parent manager_id (s.objects obj))
    id ← get_next_object_id
    s ← get
    set_object obj (set_object_id id (s.objects obj))
    add_unique_object obj
    action ← make_action init_action (at_second (pos 0)) (at_second (pos 0)) id manager_id
    schedule_start_handler action

  -- The loop of the constructor; each object is created at the next free pointer.
  unfoldable pub start_all : ObjectId → Ref → List String → M X (Unit {0})
  unfolding start_and_schedule_object
  start_all manager_id free [] = pure tt
  start_all manager_id free (name ∷ names) = do
    set_object free (new_object plain name)
    start_and_schedule_object manager_id free
    start_all manager_id (free + 1) names

  -- The constructor of SimulationManager, at the pointer `free`.
  unfoldable pub new_simulation_manager : Ref → Option String → M X (Unit {0})
  unfolding start_all
  new_simulation_manager free model = do
    set_object free (add_parent root (new_object plain "SimulationManager"))
    id ← get_next_object_id
    s ← get
    set_object free (set_object_id id (s.objects free))
    names ← lift (get_simulation_starter_objects model)
    start_all id (free + 1) names

  -- The end of Core::setup.
  unfoldable pub set_up_simulation : Ref → Option String → M X (Unit {0})
  unfolding new_simulation_manager
  set_up_simulation free model = do
    new_simulation_manager free model
    s ← get
    l ← lift (add_to_object_container s.on_core_thread s.objects free s.object_list)
    set_core (record s.core { object_list = l })
