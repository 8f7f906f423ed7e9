-- ===== src/Objects/Container/Lookup.antt =====
-- What lookups in src/objects/ObjectList.cpp find after each operation.
use cosidia.Prelude.{eqb_ℤ, true, ◌≡◌, refl, none, some, arith, if◌then◌else◌}
use cosidia.Prelude.Result.{ok}
use cosidia.Std.Map.{IsSorted, update_at-IsSorted, erase-IsSorted, find-update_at, find-erase}
use cosidia.Std.Set.{member-insert}
use cosidia.Core.Action.{Ref, ObjectId}
use cosidia.Objects.Container.{
  ObjectList, Objects, insert_object, remove_id, get_object, add_to_object_container,
  remove_from_simulation, get_object_by_id_from_current_container, new_list,
}

-- Readers see the working copy, and the ids ascend.
pub record IsValid (l : ObjectList) : Type 0 where
  pub published : l.current_copy.container ≡ l.working_copy
  pub sorted : IsSorted l.working_copy.active_objects

pub new_list-IsValid : IsValid new_list
new_list-IsValid = record { published = refl; sorted = tt }

module _ (objects : Objects) (o : Ref) (l l' : ObjectList) (v : IsValid l)
    (added : add_to_object_container true objects o l ≡ ok l') where
  pub add_to_object_container-IsValid : IsValid l'
  unfolding add_to_object_container insert_object
  add_to_object_container-IsValid = record {
    published = ground arith;
    sorted = ground (
      arith,
      update_at-IsSorted (objects o).object_id o (λ (_ : Ref). o) l.working_copy.active_objects
          v.sorted,
    );
  }

  -- Where the core thread adds an object to a valid list and this does not throw, readers find the
  -- object under its id, and every other lookup is as before.
  pub get_object-add :
      (id : ObjectId)
      → get_object_by_id_from_current_container id l' ≡ (
          if eqb_ℤ (objects o).object_id id
          then ok (some o)
          else get_object_by_id_from_current_container id l)
  unfolding add_to_object_container insert_object get_object_by_id_from_current_container get_object
  get_object-add id = ground (
    arith,
    find-update_at (objects o).object_id id o (λ (_ : Ref). o) l.working_copy.active_objects
        v.sorted,
  )

module _ (gone : ObjectId) (l l' : ObjectList) (v : IsValid l)
    (removed : remove_from_simulation true gone l ≡ ok l') where
  pub remove_from_simulation-IsValid : IsValid l'
  unfolding remove_from_simulation remove_id
  remove_from_simulation-IsValid = record {
    published = ground arith;
    sorted = ground (arith, erase-IsSorted gone l.working_copy.active_objects v.sorted);
  }

  -- Where the core thread removes an object of a valid list from the simulation and this does not
  -- throw, a lookup of its id does not throw either: it yields the null pointer. Every other lookup
  -- is as before.
  pub get_object-remove :
      (id : ObjectId)
      → get_object_by_id_from_current_container id l'
        ≡ (if eqb_ℤ gone id then ok none else get_object_by_id_from_current_container id l)
  unfolding remove_from_simulation remove_id get_object_by_id_from_current_container get_object
  get_object-remove id = ground (
    arith,
    find-erase gone id l.working_copy.active_objects v.sorted,
    member-insert gone id l.working_copy.removed_objects,
  )
