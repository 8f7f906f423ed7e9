-- ===== src/Objects/Object.antt =====
-- src/objects/BaseObject.hpp, the constructor, the relations and `isInitialized` of
-- src/objects/BaseObject.cpp, and what VehicleObject adds to them in src/objects/VehicleObject.cpp.
-- The fields are those of a build with COSIDIA_SAFE. Handles of objects are numbers, as for actions.
use cosidia.Prelude.{ℕ, Bool, true, false, not, ◌||◌, List, [], ◌∷◌, String, if◌then◌else◌}
use cosidia.Prelude.Result.{Result, ok, ◌>>=◌, ◌>>◌, enforce}
use text.Mathlib.Text.{◌==◌ as str_eq}
use cosidia.Std.Set.{insert}
use cosidia.Utils.ReadOnly.{ReadOnly, get, set_element}
use cosidia.Core.Action.{ObjectId, valid, stub}
use cosidia.Objects.ActionManager.{ActionManager, new_manager}
use cosidia.Objects.ActionHistory.{ActionHistory, new_history}

-- The subclass of an object, as far as BaseObject's virtual methods depend on it.
pub data ObjectClass : Type 0 where
  plain : ObjectClass
  vehicle : (external_id : ReadOnly String) → ObjectClass

pub record BaseObject : Type 0 where
  pub object_class : ObjectClass
  pub object_id : ObjectId
  pub parent_list : List ObjectId
  pub child_id_list : List ObjectId
  pub action_manager : ActionManager
  pub object_name : String
  pub current_action : ℕ
  pub first_action : Bool
  pub history : ActionHistory

-- The constructor, with the name that the subclass sets.
abbrev pub new_object : ObjectClass → String → BaseObject
new_object object_class name = record {
  object_class = object_class;
  object_id = stub;
  parent_list = [];
  child_id_list = [];
  action_manager = new_manager;
  object_name = name;
  current_action = 0;
  first_action = true;
  history = new_history 10;
}

abbrev pub set_object_id : ObjectId → BaseObject → BaseObject
set_object_id id o = record o { object_id = id }

abbrev pub add_parent : ObjectId → BaseObject → BaseObject
add_parent id o = record o { parent_list = insert id o.parent_list }

abbrev pub add_child : ObjectId → BaseObject → BaseObject
add_child id o = record o { child_id_list = insert id o.child_id_list }

abbrev pub is_nil : List ObjectId → Bool
is_nil [] = true
is_nil (x ∷ xs) = false

-- BaseObject::isInitialized
unfoldable pub base_is_initialized : BaseObject → Bool
base_is_initialized o =
    if str_eq o.object_name "" || not (valid o.object_id) || is_nil o.parent_list
    then false
    else true

class_is_initialized : ObjectClass → Bool → Result Bool
class_is_initialized plain base = ok base
class_is_initialized (vehicle external_id) false = ok false
class_is_initialized (vehicle external_id) true = do id ← get external_id; ok (not (str_eq id ""))

-- The virtual isInitialized(), which a vehicle without an external id makes throw.
unfoldable pub is_initialized : BaseObject → Result Bool
unfolding class_is_initialized base_is_initialized
is_initialized o = class_is_initialized o.object_class (base_is_initialized o)

set_id_of : ObjectClass → String → Result ObjectClass
set_id_of plain id = ok plain
set_id_of (vehicle external_id) id = do e ← set_element id external_id; ok (vehicle e)

-- VehicleObject::setExternalId
unfoldable pub set_external_id : String → BaseObject → Result BaseObject
unfolding set_id_of
set_external_id id o = do
  initialized ← is_initialized o
  enforce (not initialized) "VehicleObject: it is not allowed to set ExternalId when initialized"
  c ← set_id_of o.object_class id
  ok (record o { object_class = c })
