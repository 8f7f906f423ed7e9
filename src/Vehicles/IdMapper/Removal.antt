-- ===== src/Vehicles/IdMapper/Removal.antt =====
-- Which vehicles src/mobility/MobilityManager.cpp removes.
use cosidia.Prelude.{◌≡◌, ◌≢◌, refl, List, [], ◌∷◌, String, if◌then◌else◌, arith}
use cosidia.Prelude.Result.{ok}
use text.Mathlib.TextEquality.{eq_iff}
use cosidia.Core.Action.{ObjectId, valid}
use cosidia.Vehicles.IdMapper.{IdMapper, collect_removals, erase_keys, erase_key}

-- No entry of the mapper has the key.
abbrev pub Lacks : String → IdMapper → Type 0
Lacks k [] = Unit
Lacks k ((j, v) ∷ m) = (j ≢ k) × Lacks k m

-- As in a std::map, no key stands twice.
abbrev pub IsMap : IdMapper → Type 0
IsMap [] = Unit
IsMap ((k, v) ∷ m) = Lacks k m × IsMap m

valid_keys : IdMapper → List String
valid_keys [] = []
valid_keys ((k, id) ∷ m) = if valid id then k ∷ valid_keys m else valid_keys m

-- The entries with no object yet.
abbrev pub unresolved : IdMapper → IdMapper
unresolved [] = []
unresolved ((k, id) ∷ m) = if valid id then unresolved m else (k, id) ∷ unresolved m

-- What is related to the last valid entry, or `ids` where there is none.
abbrev pub last_related : (ObjectId → List ObjectId) → IdMapper → List ObjectId → List ObjectId
last_related f [] ids = ids
last_related f ((k, id) ∷ m) ids =
    if valid id then last_related f m (f id) else last_related f m ids

erase_keys-skip :
    (j : String) (v : ObjectId) (m n : IdMapper)
    → Lacks j n
    → erase_keys (valid_keys n) ((j, v) ∷ m) ≡ (j, v) ∷ erase_keys (valid_keys n) m
unfolding erase_keys erase_key valid_keys
erase_keys-skip j v m [] h = refl
erase_keys-skip j v m ((k, id) ∷ n) (d, h) =
    ground (arith, erase_keys-skip j v m n h, erase_keys-skip j v (erase_key k m) n h, eq_iff j k)

erase_keys-valid_keys : (m : IdMapper) → IsMap m → erase_keys (valid_keys m) m ≡ unresolved m
unfolding erase_keys erase_key valid_keys
erase_keys-valid_keys [] h = refl
erase_keys-valid_keys ((k, id) ∷ m) (l, h) =
    ground (arith, erase_keys-valid_keys m h, erase_keys-skip k id m m l, eq_iff k k)

collect_removals-eq :
    (f : ObjectId → List ObjectId) (m : IdMapper) (ids : List ObjectId)
    → collect_removals (λ id. ok (f id)) m ids ≡ ok (last_related f m ids, valid_keys m)
unfolding collect_removals valid_keys
collect_removals-eq f [] ids = refl
collect_removals-eq f ((k, id) ∷ m) ids =
    ground (arith, collect_removals-eq f m ids, collect_removals-eq f m (f id))

-- In a mapper with no key twice, where every vehicle's related objects are found, a removal of
-- vehicles erases every valid entry, and deletes the objects of the valid entry that comes last and
-- of no other.
pub only_last_removed :
    (f : ObjectId → List ObjectId) (m : IdMapper)
    → IsMap m
    → (keys : List String) × (collect_removals (λ id. ok (f id)) m []
        ≡ ok (last_related f m [], keys))
      × (erase_keys keys m ≡ unresolved m)
only_last_removed f m h = (valid_keys m, collect_removals-eq f m [], erase_keys-valid_keys m h)
