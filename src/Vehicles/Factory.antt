-- ===== src/Vehicles/Factory.antt =====
-- src/objects/ObjectFactory.cpp. The constructors of the router, the microchannel and the vehicle
-- are their BaseObject, at three fresh pointers. The factory data is its entry "id".
pub mod Created
pub mod Numbered
pub mod Linked
pub mod Whole
use cosidia.Prelude.{
  pos, ◌+◌, true, false, Option, none, some, List, [], ◌∷◌, String, if◌then◌else◌,
}
use cosidia.Prelude.Result.{Result, ok, err, runtime_error, enforce}
use text.Mathlib.Text.{◌==◌ as str_eq}
use cosidia.Utils.ReadOnly.{unset}
use cosidia.Core.Action.{Ref}
use cosidia.Objects.Object.{new_object, plain, vehicle, set_external_id}
use cosidia.Objects.Container.{ObjectContainer, get_unique}
use cosidia.Kernel.{M, pure, ◌>>=◌, ◌>>◌, get, lift, throw, set_object}
use cosidia.Vehicles.Temporary.{TemporaryObject, temporary_object, set_temp_child, set_temp_parent}

-- AnyMap's `get` of a string that is stored, or is missing.
pub record FactoryData : Type 0 where
  pub id : Option String

unfoldable pub get_id : FactoryData → Result String
get_id d = elim d.id [ none ↦ err (runtime_error "Element not in AnyMap") | some id ↦ ok id ]

-- The four objects of a vehicle with their relations.
unfoldable pub vehicle_objects : (radio microchannel vehicle router : Ref) → List TemporaryObject
vehicle_objects radio microchannel v router =
    let t_channel = temporary_object (pos 1) microchannel false in
    let t_vehicle = temporary_object (pos 2) v false in
    let t_router = temporary_object (pos 3) router false in
    let t_radio = set_temp_child t_channel (temporary_object (pos 0) radio true) in
    let t_channel = set_temp_parent t_radio t_channel in
    let t_channel = set_temp_child t_vehicle t_channel in
    let t_vehicle = set_temp_parent t_channel t_vehicle in
    let t_channel = set_temp_child t_router t_channel in
    let t_router = set_temp_parent t_channel t_router in
    t_radio ∷ t_channel ∷ t_vehicle ∷ t_router ∷ []

module _ {X : Type 0} where
  -- `free` is the first of three pointers that lead to no object yet; `none` is a null pointer.
  unfoldable pub create_vehicle_object :
      Ref → ObjectContainer → Option FactoryData → M X (List TemporaryObject)
  unfolding vehicle_objects
  create_vehicle_object free object_list none =
      lift (enforce false "ObjectFactory: Need FactoryData to create Vehicle") >> pure []
  create_vehicle_object free object_list (some d) = do
    set_object free (new_object plain "Router")
    set_object (free + 1) (new_object plain "Microchannel")
    set_object (free + 2) (new_object (vehicle unset) "VehicleObject")
    id ← lift (get_id d)
    s ← get
    v ← lift (set_external_id id (s.objects (free + 2)))
    set_object (free + 2) v
    radio ← lift (get_unique "Radio" object_list)
    pure (vehicle_objects radio (free + 1) (free + 2) free)

  unfoldable pub create_object :
      String → Ref → ObjectContainer → Option FactoryData → M X (List TemporaryObject)
  unfolding create_vehicle_object
  create_object identifier free object_list d =
      if str_eq identifier "vehicle"
      then create_vehicle_object free object_list d
      else throw (runtime_error "ObjectFactory: Unknown object requested")
