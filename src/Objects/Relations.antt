-- ===== src/Objects/Relations.antt =====
-- The searches by name among an object's relations in src/objects/BaseObject.cpp, and
-- src/objects/ObjectRemover.cpp. `objects` is the heap of objects.
use cosidia.Prelude.{
  ap, ◌≡◌, true, false, Option, none, some, List, [], ◌∷◌, String, if◌then◌else◌, arith,
}
use cosidia.Prelude.Result.{Result, ok, ◌>>=◌, ◌>>◌, enforce, deref}
use text.Mathlib.Text.{◌==◌ as str_eq}
use cosidia.Std.Map.{find}
use cosidia.Core.Action.{Ref, ObjectId}
use cosidia.Objects.Container.{ObjectContainer, Objects, get_object, is_some}

module _ (objects : Objects) (c : ObjectContainer) where
  -- `objects->getObject(id)`, whose pointer is dereferenced.
  pointer_to : ObjectId → Result Ref
  pointer_to id = do o ← get_object id c; deref o

  -- The loop over ids that stops at the first object with the name.
  first_named : String → List ObjectId → Result (Option Ref)
  unfolding pointer_to
  first_named name [] = ok none
  first_named name (id ∷ ids) = do
    o ← pointer_to id
    elim (str_eq (objects o).object_name name) [ true ↦ ok (some o) | false ↦ first_named name ids ]

  first_sibling : String → List ObjectId → Result (Option Ref)
  unfolding pointer_to first_named
  first_sibling name [] = ok none
  first_sibling name (id ∷ ids) = do
    parent ← pointer_to id
    found ← first_named name (objects parent).child_id_list
    elim found [ some o ↦ ok (some o) | none ↦ first_sibling name ids ]

  unfoldable pub get_sibling_by_name : Ref → String → Result Ref
  unfolding first_sibling
  get_sibling_by_name o name = do
    found ← first_sibling name (objects o).parent_list
    enforce (is_some found) "getSiblingByName failed"
    deref found

  -- The overload that takes an id.
  unfoldable pub get_sibling_of_id : ObjectId → String → Result Ref
  unfolding pointer_to get_sibling_by_name
  get_sibling_of_id id name = do o ← pointer_to id; get_sibling_by_name o name

  unfoldable pub get_parent_by_name : Ref → String → Result Ref
  unfolding first_named
  get_parent_by_name o name = do
    found ← first_named name (objects o).parent_list
    enforce (is_some found) "getParentByName failed"
    deref found

  unfoldable pub get_child_by_name : Ref → String → Result Ref
  unfolding first_named
  get_child_by_name o name = do
    found ← first_named name (objects o).child_id_list
    enforce (is_some found) "getChildByName failed"
    deref found

  unfoldable pub get_vehicle_related_objects : ObjectId → Result (List ObjectId)
  unfolding pointer_to get_parent_by_name get_sibling_by_name
  get_vehicle_related_objects id = do
    o ← pointer_to id
    enforce (str_eq (objects o).object_name "VehicleObject")
        "Object to remove must be VehicleObject"
    microchannel ← get_parent_by_name o "Microchannel"
    router ← get_sibling_by_name o "Router"
    ok (id ∷ (objects microchannel).object_id ∷ (objects router).object_id ∷ [])

  unfoldable pub get_objects_to_delete : String → ObjectId → Result (List ObjectId)
  unfolding get_vehicle_related_objects
  get_objects_to_delete identifier id =
      if str_eq identifier "vehicle" then get_vehicle_related_objects id else ok []

  -- A vehicle as ObjectFactory builds it, with any ids that ascend in the order of creation: its
  -- one parent is a microchannel, whose children are the vehicle and a router.
  pub record IsVehicle (channel vehicle router : ObjectId) (m v r : Ref) : Type 0 where
    pub channel_found : find channel c.active_objects ≡ some m
    pub vehicle_found : find vehicle c.active_objects ≡ some v
    pub router_found : find router c.active_objects ≡ some r
    pub channel_name : (objects m).object_name ≡ "Microchannel"
    pub vehicle_name : (objects v).object_name ≡ "VehicleObject"
    pub router_name : (objects r).object_name ≡ "Router"
    pub channel_id : (objects m).object_id ≡ channel
    pub router_id : (objects r).object_id ≡ router
    pub vehicle_parents : (objects v).parent_list ≡ channel ∷ []
    pub channel_children : (objects m).child_id_list ≡ vehicle ∷ router ∷ []

  pointer_to-found :
      (id : ObjectId) (o : Ref) → find id c.active_objects ≡ some o → pointer_to id ≡ ok o
  unfolding pointer_to get_object
  pointer_to-found id o h = ground (arith, h)

  -- Where the container holds a vehicle whose one parent is a microchannel with the vehicle and a
  -- router as its children, getObjectsToDelete returns the ids of the vehicle, of the
  -- microchannel and of the router, in this order.
  pub removes_vehicle :
      (channel vehicle router : ObjectId) (m v r : Ref)
      → IsVehicle channel vehicle router m v r
      → get_objects_to_delete "vehicle" vehicle ≡ ok (vehicle ∷ channel ∷ router ∷ [])
  unfolding get_objects_to_delete
  removes_vehicle channel vehicle router m v r h =
      let is_vehicle : str_eq (objects v).object_name "VehicleObject" ≡ true =
        ap (λ n. str_eq n "VehicleObject") h.vehicle_name in
      let is_channel : str_eq (objects m).object_name "Microchannel" ≡ true =
        ap (λ n. str_eq n "Microchannel") h.channel_name in
      let not_router : str_eq (objects v).object_name "Router" ≡ false =
        ap (λ n. str_eq n "Router") h.vehicle_name in
      let is_router : str_eq (objects r).object_name "Router" ≡ true =
        ap (λ n. str_eq n "Router") h.router_name in
      ground (
        arith,
        pointer_to-found vehicle v h.vehicle_found,
        pointer_to-found channel m h.channel_found,
        pointer_to-found router r h.router_found,
        h.vehicle_parents,
        h.channel_children,
        h.channel_id,
        h.router_id,
      )
