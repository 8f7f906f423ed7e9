-- ===== src/Vehicles/Temporary.antt =====
-- src/objects/TemporaryObject.hpp and src/objects/TemporaryObject.cpp: objects that name each other
-- by temporary ids until they get their ids from the core. A TemporaryObject is a value here:
-- resolveAndStart changes each once, before it is looked up. No pointer in the list is null.
pub mod Ids
pub mod Relatives
pub mod Connected
use cosidia.Prelude.{ℤ, pos, ◌+ℤ◌, Bool, not, List, [], ◌∷◌, if◌then◌else◌}
use cosidia.Prelude.Result.{Result, ok, err, assertion, deref}
use cosidia.Std.Map.{find, assign}
use cosidia.Std.Set.{insert}
use cosidia.Core.Clock.{TimePoint, at_millisecond}
use cosidia.Core.Action.{Ref, ObjectId, valid, stub, init_action}
use cosidia.Objects.Object.{BaseObject, add_parent, add_child, set_object_id}
use cosidia.Kernel.{M, pure, ◌>>=◌, ◌>>◌, get, lift, set_object}
use cosidia.Kernel.Schedule.{get_next_object_id, add_object, make_action, schedule_start_handler}

pub record TemporaryObject : Type 0 where
  pub temp_id : ObjectId
  pub initialized : Bool
  pub temp_parents : List ObjectId
  pub temp_children : List ObjectId
  pub temp_mapping : ObjectId × ObjectId
  pub base_object : Ref

abbrev pub temporary_object : ObjectId → Ref → Bool → TemporaryObject
temporary_object id obj initialized = record {
  temp_id = id;
  initialized = initialized;
  temp_parents = [];
  temp_children = [];
  temp_mapping = (stub, stub);
  base_object = obj;
}

-- The first argument is the other object.
abbrev pub set_temp_child : TemporaryObject → TemporaryObject → TemporaryObject
set_temp_child child t = record t { temp_children = insert child.temp_id t.temp_children }

abbrev pub set_temp_parent : TemporaryObject → TemporaryObject → TemporaryObject
set_temp_parent parent t = record t { temp_parents = insert parent.temp_id t.temp_parents }

abbrev pub set_temp_mapping : ObjectId → TemporaryObject → TemporaryObject
set_temp_mapping real_id t = record t { temp_mapping = (t.temp_id, real_id) }

unfoldable pub get_real_id : TemporaryObject → Result ObjectId
get_real_id t = if valid t.temp_mapping.1 then ok t.temp_mapping.1 else err assertion

module _ {X : Type 0} where
  unfoldable pub initialize : TimePoint → TemporaryObject → M X TemporaryObject
  initialize t obj =
      if obj.initialized
      then (do s ← get; pure (set_temp_mapping (s.objects obj.base_object).object_id obj))
      else (do
        id ← get_next_object_id
        s ← get
        set_object obj.base_object (set_object_id id (s.objects obj.base_object))
        a ← make_action init_action (at_millisecond (pos 50)) (t +ℤ at_millisecond (pos 1)) id id
        schedule_start_handler a
        pure (set_temp_mapping id obj))

  unfoldable pub add_to_core : TemporaryObject → M X (Unit {0})
  add_to_core obj = add_object obj.base_object

  -- The first loop: the list as it is then, and `mResolvedIds`.
  unfoldable pub initialize_all :
      TimePoint
      → List TemporaryObject
      → List (ℤ × TemporaryObject)
      → M X (List TemporaryObject × List (ℤ × TemporaryObject))
  unfolding initialize
  initialize_all start [] resolved = pure ([], resolved)
  initialize_all start (obj ∷ rest) resolved = do
    obj' ← initialize start obj
    (rest', resolved') ← initialize_all start rest (assign obj'.temp_id obj' resolved)
    pure (obj' ∷ rest', resolved')

  -- `mResolvedIds[id]->getRealId()` for each id, and a write to the base object: `relate` is
  -- setRealChildren or setRealParent.
  unfoldable pub relate_all :
      (ObjectId → BaseObject → BaseObject)
      → List (ℤ × TemporaryObject)
      → TemporaryObject
      → List ObjectId
      → M X (Unit {0})
  relate_all relate resolved obj [] = pure tt
  relate_all relate resolved obj (id ∷ ids) = do
    other ← lift (deref (find id resolved))
    real ← lift (get_real_id other)
    s ← get
    set_object obj.base_object (relate real (s.objects obj.base_object))
    relate_all relate resolved obj ids

  -- The second loop.
  unfoldable pub connect_all : List (ℤ × TemporaryObject) → List TemporaryObject → M X (Unit {0})
  unfolding relate_all add_to_core
  connect_all resolved [] = pure tt
  connect_all resolved (obj ∷ rest) = do
    relate_all add_child resolved obj obj.temp_children
    relate_all add_parent resolved obj obj.temp_parents
    if not obj.initialized then add_to_core obj else pure tt
    connect_all resolved rest

  unfoldable pub resolve_and_start : TimePoint → List TemporaryObject → M X (Unit {0})
  unfolding initialize_all connect_all
  resolve_and_start start temp_list = do
    (list, resolved) ← initialize_all start temp_list []
    connect_all resolved list
