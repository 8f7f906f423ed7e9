-- ===== src/Tests/VehicleRuns.antt =====
-- Runs of src/objects/TemporaryObject.cpp, and of the event loop around a removed object.
use cosidia.Prelude.{pos, ◌+ℤ◌, ◌*ℤ◌, ◌≤ℤ◌, leb_ℤ, ◌≡◌, refl, true, List, [], ◌∷◌, arith}
use cosidia.Prelude.Result.{Result, ok, err}
use cosidia.Std.Map.{find, erase}
use cosidia.Std.Set.{insert}
use cosidia.Core.Clock.{at_second, at_millisecond, zero_time}
use cosidia.Objects.Container
use cosidia.Kernel.{System}
use cosidia.Kernel.Schedule.{remove_object_from_simulation}
use cosidia.Kernel.Schedule.Ids.{start_of, end_of}
use cosidia.Kernel.Loop.{execute_handlers}
use cosidia.Kernel.Loop.Removed
use cosidia.Prelude.{ℕ, ◌<◌, none, some}
use cosidia.Objects.Container.{ObjectContainer, get_unique, find_name}
use cosidia.Objects.Relations.{get_objects_to_delete}
use cosidia.Vehicles.Factory.{create_object}
use cosidia.Vehicles.Factory.Whole
use cosidia.Vehicles.Temporary.{TemporaryObject, resolve_and_start}
use cosidia.Tests.World.{idle, world, object_list-IsValid}

abbrev after_run : Result (Unit {0} × System (Unit {0})) → System (Unit {0})
after_run (ok (_, s)) = s
after_run (err e) = world

abbrev left : System (Unit {0})
left = after_run (remove_object_from_simulation (pos 2) world)

left-eq : remove_object_from_simulation (pos 2) world ≡ ok (tt, left)
unfolding remove_object_from_simulation Container.remove_from_simulation Container.remove_id find
    erase insert
left-eq = refl

removed_object_is_left_alone_example :
    execute_handlers idle (start_of 1 ∷ end_of 2 ∷ []) left ≡ ok (tt, left)
unfolding remove_object_from_simulation Container.remove_from_simulation Container.remove_id find
    erase insert
removed_object_is_left_alone_example =
    Removed.removed_object_is_left_alone idle (pos 2) world left (start_of 1 ∷ end_of 2 ∷ [])
      object_list-IsValid refl left-eq
      ((λ e. omega (arith, e), refl), ((λ e. omega (arith, e), refl), tt))

in_time : leb_ℤ zero_time (pos 20 +ℤ at_millisecond (pos 1)) ≡ true
unfolding zero_time at_second at_millisecond ◌*ℤ◌ ◌+ℤ◌
in_time = refl

in_order : pos 20 ≤ℤ pos 20 +ℤ at_millisecond (pos 1)
unfolding at_millisecond ◌*ℤ◌ ◌+ℤ◌
in_order = omega arith

-- What is known of the radio, at the pointer 7.
abbrev with_radio : ObjectContainer
with_radio = record {
  active_objects = (pos 2, 7) ∷ [];
  unique_objects = ("Radio", pos 2) ∷ [];
  removed_objects = [];
}

radio_known : get_unique "Radio" with_radio ≡ ok 7
unfolding get_unique find_name find
radio_known = refl

spare : (i : ℕ) → 2 < i → find (pos i) world.object_list.working_copy.active_objects ≡ none
unfolding find
spare i h = ground arith

created_vehicle_removed_example :
    (objs : List TemporaryObject) × (s1 : System (Unit {0})) × (s' : System (Unit {0}))
    × (create_object "vehicle" 50 with_radio (some (record { id = some "car" })) world
        ≡ ok (objs, s1))
    × (resolve_and_start (pos 20) objs s1 ≡ ok (tt, s'))
    × (get_objects_to_delete s'.objects s'.object_list.working_copy "vehicle" (pos 4)
        ≡ ok (pos 4 ∷ pos 3 ∷ pos 5 ∷ []))
created_vehicle_removed_example =
    Whole.created_vehicle_removed (pos 20) 50 7 "car" with_radio world object_list-IsValid spare
      refl in_time in_order radio_known (omega arith) refl refl
