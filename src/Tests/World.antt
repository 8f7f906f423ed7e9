-- ===== src/Tests/World.antt =====
-- A small simulation: two objects, three actions and the behaviour that does nothing.
use cosidia.Prelude.{ℤ, pos, ℕ, Bool, true, none, some, [], ◌∷◌}
use cosidia.Core.StateMachine.{running}
use cosidia.Core.Action.{Action, duration_action, start_handler}
use cosidia.Objects.Object.{BaseObject, new_object, plain}
use cosidia.Objects.Container.{ObjectList, ObjectContainer}
use cosidia.Prelude.{refl}
use cosidia.Objects.Container.Lookup.{IsValid}
use cosidia.Kernel.{System, Core, pure}
use cosidia.Kernel.Execution.{Behaviour}

abbrev pub idle : Behaviour (Unit {0})
idle = record {
  start_execution = λ o a. pure tt;
  end_execution = λ o a. pure tt;
  init_object = λ o a. pure tt;
}

abbrev pub lamp : BaseObject
lamp = record (new_object plain "Lamp") { object_id = pos 2; parent_list = pos 0 ∷ [] }

abbrev pub tick : ℕ → ℤ → Action
tick id start = record {
  action_class = duration_action;
  duration = pos 10;
  start_time = start;
  affected = pos 2;
  generating = pos 2;
  action_id = id;
  action_type = "default";
  action_data = none;
  state = running;
}

abbrev pub container : ObjectContainer
container = record { active_objects = (pos 2, 7) ∷ []; unique_objects = []; removed_objects = [] }

abbrev pub object_list : ObjectList
object_list = record {
  working_copy = container;
  current_copy = record { address = 1; container = container };
  current_object_id = 2;
}

pub object_list-IsValid : IsValid object_list
object_list-IsValid = record { published = refl; sorted = tt }

abbrev pub core : Core
core = record {
  clock = record { sim_time = pos 0 };
  handlers = (pos 20, record { kind = start_handler; action = 1 } ∷ []) ∷ [];
  current_action_time = pos 20;
  object_list = object_list;
  is_finished = Bool.false;
  current_action_id = 3;
}

-- The action behind the pointer `r` has the id `r` and starts at 20.
abbrev pub world_of : {X : Type 0} → X → System X
world_of x = record {
  on_core_thread = true;
  core = core;
  actions = λ r. tick r (pos 20);
  next_action = 4;
  objects = λ r. lamp;
  model = x;
}

abbrev pub world : System (Unit {0})
world = world_of tt

-- The same world with an object that runs action 1 while action 2 waits.
abbrev pub busy : System (Unit {0})
busy = record world {
  objects = λ r. record lamp {
    current_action = 1;
    first_action = Bool.false;
    action_manager = record { active_action = some 1; delayed_queue = 2 ∷ [] };
  };
}
