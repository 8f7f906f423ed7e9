-- ===== src/Vehicles/IdMapper.antt =====
-- The map from external ids to objects in src/mobility/MobilityManager.cpp, and the loops over it.
-- `lt` compares two keys, and `related` is ObjectRemover::getObjectsToDelete of a vehicle.
pub mod Removal
use cosidia.Prelude.{ℤ, Bool, true, false, Option, none, some, List, [], ◌∷◌, String, if◌then◌else◌}
use cosidia.Prelude.Result.{Result, ok, err, undefined, ◌>>=◌}
use text.Mathlib.Text.{◌==◌ as str_eq}
use cosidia.Core.Action.{Ref, ObjectId, valid}
use cosidia.Utils.ReadOnly
use cosidia.Objects.Object.{BaseObject, ObjectClass, plain, vehicle}
use cosidia.Objects.Container.{ObjectContainer, Objects}

-- std::map<std::string, ObjectId>, in the order of its keys, which `lt` compares.
abbrev pub IdMapper : Type 0
IdMapper = List (String × ObjectId)

-- std::map::emplace, which leaves an entry with the key as it is.
unfoldable pub emplace : (String → String → Bool) → String → ObjectId → IdMapper → IdMapper
emplace lt k id [] = (k, id) ∷ []
emplace lt k id ((j, v) ∷ m) =
    if lt k j
    then (k, id) ∷ (j, v) ∷ m
    else if str_eq j k
    then (j, v) ∷ m
    else (j, v) ∷ emplace lt k id m

unfoldable pub erase_key : String → IdMapper → IdMapper
erase_key k [] = []
erase_key k ((j, v) ∷ m) = if str_eq j k then m else (j, v) ∷ erase_key k m

-- The loop over the mapper: the ids to delete are those of the valid entry that was visited last,
-- and the keys of all valid entries are collected.
unfoldable pub collect_removals :
    (ObjectId → Result (List ObjectId))
    → IdMapper
    → List ObjectId
    → Result (List ObjectId × List String)
collect_removals related [] to_delete = ok (to_delete, [])
collect_removals related ((k, id) ∷ m) to_delete = elim (valid id) [
  | false ↦ collect_removals related m to_delete
  | true ↦
      related id >>= λ ids. collect_removals related m ids >>= λ (final, keys). ok (final, k ∷ keys)
]

unfoldable pub erase_keys : List String → IdMapper → IdMapper
unfolding erase_key
erase_keys [] m = m
erase_keys (k ∷ ks) m = erase_keys ks (erase_key k m)

external_id_of : ObjectClass → Result String
external_id_of plain = err undefined
external_id_of (vehicle external_id) = ReadOnly.get external_id

-- The inner loop of fetchVehicleIds at the key of an unresolved entry: the last match wins.
unfoldable pub fetch_id : Objects → String → List (ObjectId × Ref) → ObjectId → Result ObjectId
unfolding external_id_of
fetch_id objects k [] id = ok id
fetch_id objects k ((_, o) ∷ rest) id =
    if str_eq (objects o).object_name "VehicleObject"
    then (external_id_of (objects o).object_class >>= λ st.
        fetch_id objects k rest (if str_eq st k then (objects o).object_id else id))
    else fetch_id objects k rest id

unfoldable pub fetch_vehicle_ids : Objects → ObjectContainer → IdMapper → Result IdMapper
unfolding fetch_id
fetch_vehicle_ids objects c [] = ok []
fetch_vehicle_ids objects c ((k, id) ∷ m) =
    (if valid id then ok id else fetch_id objects k c.active_objects id) >>= λ id'.
    fetch_vehicle_ids objects c m >>= λ m'. ok ((k, id') ∷ m')
