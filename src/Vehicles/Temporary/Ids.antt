-- ===== src/Vehicles/Temporary/Ids.antt =====
-- The ids that src/objects/TemporaryObject.cpp gives to new objects.
use cosidia.Prelude.{
  ℤ, pos, ◌+ℤ◌, ◌≤ℤ◌, leb_ℤ, ℕ, ◌+◌, true, false, ◌≡◌, refl, none, List, [], ◌∷◌, All, length,
  arith,
}
use cosidia.Prelude.Result.{ok}
use cosidia.Std.Map.{assign}
use cosidia.Core.Clock.{TimePoint, at_millisecond, zero_time}
use cosidia.Core.StateMachine.{waiting, running, finished, State, set_running, set_finished}
use cosidia.Core.Action.{
  Ref, ObjectId, Action, init_action, Handler, init_handler, create, get_time,
}
use cosidia.Objects.Object.{set_object_id}
use cosidia.Objects.Container
use cosidia.Kernel.{System, update, update_self}
use cosidia.Kernel.Schedule.{get_next_object_id, make_action, schedule_start_handler}
use cosidia.Kernel.Schedule.Ids.{scheduled, schedule_action-scheduled}
use cosidia.Vehicles.Temporary.{TemporaryObject, initialize, initialize_all, set_temp_mapping}

abbrev pub init_of : Ref → Handler
init_of a = record { kind = init_handler; action = a }

abbrev pub init_act : TimePoint → ObjectId → State → Action
init_act t id state = record {
  action_class = init_action;
  duration = at_millisecond (pos 50);
  start_time = t +ℤ at_millisecond (pos 1);
  affected = id;
  generating = id;
  action_id = 0;
  action_type = "default";
  action_data = none;
  state = state;
}

-- The objects with the real ids after `k`, in order.
abbrev pub numbered : ℕ → List TemporaryObject → List TemporaryObject
numbered k [] = []
numbered k (obj ∷ rest) = set_temp_mapping (pos (k + 1)) obj ∷ numbered (k + 1) rest

-- The objects under their temporary ids, a later one in the place of an earlier one.
abbrev pub registered :
    List TemporaryObject → List (ℤ × TemporaryObject) → List (ℤ × TemporaryObject)
registered [] m = m
registered (obj ∷ rest) m = registered rest (assign obj.temp_id obj m)

abbrev pub IsNew : TemporaryObject → Type 0
IsNew obj = obj.initialized ≡ false

module _ {X : Type 0} where
  -- The new object has its id, and its first action is created and runs through its states.
  abbrev pub begun : TimePoint → TemporaryObject → System X → System X
  begun t obj s =
      let id = pos (s.object_list.current_object_id + 1) in
      let n = s.next_action in
      record s {
        core = record s.core {
          object_list = record s.object_list {
            current_object_id = s.object_list.current_object_id + 1;
          };
        };
        objects = update s.objects obj.base_object (set_object_id id (s.objects obj.base_object));
        actions =
            update (update (update s.actions n (init_act t id waiting)) n (init_act t id running)) n
              (init_act t id finished);
        next_action = n + 1;
      }

  pub initialize_new :
      (t : TimePoint) (obj : TemporaryObject) (s : System X)
      → obj.initialized ≡ false
      → s.on_core_thread ≡ true
      → leb_ℤ zero_time (t +ℤ at_millisecond (pos 1)) ≡ true
      → s.current_action_time ≤ℤ t +ℤ at_millisecond (pos 1)
      → initialize t obj s
        ≡ ok (
          set_temp_mapping (pos (s.object_list.current_object_id + 1)) obj,
          scheduled (init_of s.next_action) (begun t obj s),
        )
  unfolding initialize get_next_object_id Container.get_next_object_id make_action create
      schedule_start_handler set_running set_finished get_time
  initialize_new t obj s new on h late = ground (
    arith,
    new,
    on,
    h,
    schedule_action-scheduled (init_of s.next_action) (begun t obj s),
    update_self s.actions s.next_action,
  )

  -- On the core thread, where one millisecond after the given time is neither over nor before the
  -- start of the simulation, the first loop of resolveAndStart succeeds on new objects: they get
  -- the ids that follow the last one given, in order, each is registered under its temporary id,
  -- and the core's counter stands at the last.
  pub initialize_all-numbered :
      (t : TimePoint) (objs : List TemporaryObject) (m : List (ℤ × TemporaryObject)) (s : System X)
      → All IsNew objs
      → s.on_core_thread ≡ true
      → leb_ℤ zero_time (t +ℤ at_millisecond (pos 1)) ≡ true
      → s.current_action_time ≤ℤ t +ℤ at_millisecond (pos 1)
      → let list = numbered s.object_list.current_object_id objs in
        (s' : System X) × (initialize_all t objs m s ≡ ok ((list, registered list m), s'))
        × (s'.object_list.current_object_id ≡ s.object_list.current_object_id + length objs)
  unfolding initialize_all
  initialize_all-numbered t [] m s new on h late = (s, refl, omega arith)
  initialize_all-numbered t (obj ∷ rest) m s (new, news) on h late =
      let k = s.object_list.current_object_id in
      let obj' = set_temp_mapping (pos (k + 1)) obj in
      let s1 = scheduled (init_of s.next_action) (begun t obj s) in
      let (s', e, count) =
        initialize_all-numbered t rest (assign obj.temp_id obj' m) s1 news on h late in
      (s', ground (arith, initialize_new t obj s new on h late, e), omega (arith, count))
