-- ===== src/Objects/Container.antt =====
-- src/objects/ObjectList.hpp and src/objects/ObjectList.cpp. The container maps ids to handles; the
-- objects stand in a heap that every copy of a container shares. `objects` is that heap, and
-- `on_core_thread` says whether the calling thread is the core's. A copy of a container has an
-- address of its own. Printing is not modelled.
pub mod Lookup
pub mod Unique
pub mod Registry
pub mod Refines
use cosidia.Prelude.{
  ℤ, pos, ℕ, suc, ◌+◌, Bool, true, false, not, ◌||◌, Option, none, some, List, [], ◌∷◌, String,
  if◌then◌else◌,
}
use cosidia.Prelude.Result.{Result, ok, err, ◌>>=◌, ◌>>◌, enforce, deref}
use text.Mathlib.Text.{◌==◌ as str_eq}
use cosidia.Std.Map.{find, contains, assign, erase}
use cosidia.Std.Set.{member, insert}
use cosidia.Core.Action.{Ref, ObjectId}
use cosidia.Objects.Object.{BaseObject, is_initialized}

pub record ObjectContainer : Type 0 where
  pub active_objects : List (ObjectId × Ref)
  pub unique_objects : List (String × ObjectId)
  pub removed_objects : List ObjectId

abbrev pub empty_container : ObjectContainer
empty_container = record { active_objects = []; unique_objects = []; removed_objects = [] }

-- The std::map of names. Its order is never observed.
unfoldable pub find_name : String → List (String × ObjectId) → Option ObjectId
find_name k [] = none
find_name k ((j, id) ∷ m) = if str_eq j k then some id else find_name k m

abbrev pub is_some {ℓ} : {A : Type ℓ} → Option A → Bool
is_some none = false
is_some (some a) = true

abbrev pub Objects : Type 0
Objects = Ref → BaseObject

unfoldable pub insert_object : Bool → Objects → Ref → ObjectContainer → Result ObjectContainer
insert_object on_core_thread objects o c = do
  enforce on_core_thread "ObjectContainer: insert on wrong core"
  initialized ← is_initialized (objects o)
  enforce initialized "object not initialized"
  enforce (not (contains (objects o).object_id c.active_objects)) "object already in container"
  ok (record c { active_objects = assign (objects o).object_id o c.active_objects })

unfoldable pub remove_id : Bool → ObjectId → ObjectContainer → Result ObjectContainer
remove_id on_core_thread id c = do
  enforce on_core_thread "ObjectContainer: remove on wrong core"
  enforce (contains id c.active_objects) "removed object not in container"
  ok (record c { active_objects = erase id c.active_objects })

unfoldable pub remove_object : Bool → Objects → Ref → ObjectContainer → Result ObjectContainer
unfolding remove_id
remove_object on_core_thread objects o c = do
  enforce on_core_thread "ObjectContainer: remove on wrong core"
  initialized ← is_initialized (objects o)
  enforce initialized "object not initialized"
  enforce (contains (objects o).object_id c.active_objects) "removed object not in container"
  remove_id on_core_thread (objects o).object_id c

-- `none` is the null pointer, for an object that is removed from the simulation.
unfoldable pub get_object : ObjectId → ObjectContainer → Result (Option Ref)
get_object id c = do
  enforce (contains id c.active_objects || member id c.removed_objects)
      "ObjectContainer: requested objet not in container nor is it removed"
  ok (find id c.active_objects)

unfoldable pub insert_unique : Bool → Objects → Ref → ObjectContainer → Result ObjectContainer
unfolding insert_object
insert_unique on_core_thread objects o c = do
  initialized ← is_initialized (objects o)
  enforce initialized "object not initialized"
  enforce (not (is_some (find_name (objects o).object_name c.unique_objects)))
      "unique object already in container"
  enforce (not (contains (objects o).object_id c.active_objects))
      "unique object already in container"
  insert_object on_core_thread objects o (record c {
    unique_objects = ((objects o).object_name, (objects o).object_id) ∷ c.unique_objects;
  })

unfoldable pub get_unique : String → ObjectContainer → Result Ref
get_unique name c = do
  enforce (is_some (find_name name c.unique_objects)) "requested unique object not in container"
  id ← deref (find_name name c.unique_objects)
  enforce (contains id c.active_objects) "requested unique missing in object container"
  deref (find id c.active_objects)

-- ObjectContainer::removeFromSimulation
abbrev pub mark_removed : ObjectId → ObjectContainer → ObjectContainer
mark_removed id c = record c { removed_objects = insert id c.removed_objects }

-- A copy that is handed to readers, behind a shared pointer.
pub record ContainerPtr : Type 0 where
  pub address : ℕ
  pub container : ObjectContainer

pub record ObjectList : Type 0 where
  pub working_copy : ObjectContainer
  pub current_copy : ContainerPtr
  pub current_object_id : ℕ

abbrev pub new_list : ObjectList
new_list = record {
  working_copy = empty_container;
  current_copy = record { address = 0; container = empty_container };
  current_object_id = 1;
}

-- The assignments to both copies: the new copy is a new object.
abbrev pub publish : ObjectContainer → ObjectList → ObjectList
publish c l = record l {
  working_copy = c;
  current_copy = record { address = suc l.current_copy.address; container = c };
}

unfoldable pub add_to_object_container : Bool → Objects → Ref → ObjectList → Result ObjectList
add_to_object_container on_core_thread objects o l = do
  c ← insert_object on_core_thread objects o l.working_copy
  ok (publish c l)

unfoldable pub add_unique : Bool → Objects → Ref → ObjectList → Result ObjectList
add_unique on_core_thread objects o l = do
  c ← insert_unique on_core_thread objects o l.working_copy
  ok (publish c l)

unfoldable pub remove_object_by_id : Bool → ObjectId → ObjectList → Result ObjectList
remove_object_by_id on_core_thread id l = do
  c ← remove_id on_core_thread id l.working_copy
  ok (publish c l)

unfoldable pub get_unique_object_by_name : String → ObjectList → Result Ref
get_unique_object_by_name name l = get_unique name l.current_copy.container

unfoldable pub get_object_by_id_from_current_container : ObjectId → ObjectList → Result (Option Ref)
get_object_by_id_from_current_container id l = get_object id l.current_copy.container

abbrev pub get_current_object_container : ObjectList → ContainerPtr
get_current_object_container l = l.current_copy

unfoldable pub get_next_object_id : ObjectList → ObjectList × ObjectId
get_next_object_id l =
    (record l { current_object_id = l.current_object_id + 1 }, pos (l.current_object_id + 1))

-- ObjectList::removeFromSimulation
unfoldable pub remove_from_simulation : Bool → ObjectId → ObjectList → Result ObjectList
remove_from_simulation on_core_thread id l = do
  c ← remove_id on_core_thread id l.working_copy
  ok (publish (mark_removed id c) l)
