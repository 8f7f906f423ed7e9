-- ===== src/Tests/ObjectRuns.antt =====
-- Runs of src/objects, src/networking and src/mobility.
use cosidia.Prelude.{
  pos, negsuc, ◌≡◌, ◌≢◌, refl, ℕ, ◌==◌, Bool, true, false, none, some, List, [], ◌∷◌, ◌++◌, String,
  if◌then◌else◌, arith, inr,
}
use cosidia.Prelude.Result.{ok, enforce, ◌>>◌}
use text.Mathlib.Text.{◌==◌ as str_eq}
use text.Mathlib.TextEquality.{eq_iff}
use cosidia.Core.Action.{Ref, ObjectId}
use cosidia.Objects.ActionManager.{ActionManager}
use cosidia.Objects.ActionManager.Fifo
use cosidia.Objects.ActionManager.Fifo.{arrives, ends, Use, use_all, IsServing, submitted}
use cosidia.Objects.Container.{ObjectList, Objects}
use cosidia.Objects.Cache.{CacheQuery, new_cache}
use cosidia.Objects.Cache.Fresh
use cosidia.Objects.Cache.Fresh.{Call, IsHonest, answers, searches}
use cosidia.Networking.Tracker
use cosidia.Networking.Tracker.{new_tracker, set_next, is_start, is_end}
use cosidia.Vehicles.IdMapper.{IdMapper, collect_removals, erase_keys}
use cosidia.Vehicles.IdMapper.Removal
use cosidia.Vehicles.IdMapper.Removal.{last_related, unresolved}
use cosidia.Tests.World.{lamp, object_list, container}

abbrev day : List Use
day = arrives 4 ∷ arrives 5 ∷ ends ∷ arrives 6 ∷ []

abbrev serving : ActionManager
serving = record { active_action = none; delayed_queue = [] }

use_all_in_order_example :
    (m' : ActionManager) × (started : List Ref) × (use_all day serving ≡ ok (m', started))
    × IsServing m'
    × ([] ++ submitted day ≡ started ++ m'.delayed_queue)
use_all_in_order_example = Fifo.use_all_in_order day serving (inr refl)

-- The object behind pointer 8 has the id 3, and every other one the id 2.
abbrev objects : Objects
objects r = if r == 8 then record lamp { object_id = pos 3 } else lamp

abbrev added : ObjectList
added = record {
  working_copy = record container { active_objects = (pos 2, 7) ∷ (pos 3, 8) ∷ [] };
  current_copy = record {
    address = 2;
    container = record container { active_objects = (pos 2, 7) ∷ (pos 3, 8) ∷ [] };
  };
  current_object_id = 2;
}

-- Two containers, asked in turn for lamps, the second time from the cache.
abbrev asked : List Call
asked =
    (Bool.true, object_list.current_copy, ("Lamp", none))
    ∷ (false, object_list.current_copy, ("Lamp", none))
    ∷ (false, added.current_copy, ("Lamp", some 0))
    ∷ []

asked-IsHonest : IsHonest none asked
asked-IsHonest = (λ p e l q. ground arith, (λ p e l q. ground arith, (λ p e l q. ground arith, tt)))

abbrev queries : ℕ → CacheQuery
queries q = record { exclude_id = pos 2 }

cached_answers_example : answers objects queries new_cache asked ≡ searches objects queries asked
cached_answers_example = Fresh.cached_answers objects queries asked asked-IsHonest

hands_over_example :
    let t = set_next 2 (set_next 1 new_tracker) in
    (is_start 1 t ≡ false)
    × (is_start 2 t ≡ true)
    × (is_end 2 t ≡ ok (t, false))
    × (is_end 1 t ≡ ok (set_next 2 new_tracker, true))
    × (is_end 2 (set_next 2 new_tracker)
        ≡ enforce false "ActiveActionTracker: start and end must be different" >> ok (t, true))
    × (is_end 2 (set_next 3 (set_next 2 new_tracker)) ≡ ok (set_next 3 new_tracker, true))
hands_over_example = Tracker.hands_over 1 2 3 (λ e. omega (arith, e)) (λ e. omega (arith, e))

differ : (s t : String) → str_eq s t ≡ false → s ≢ t
differ s t h e = ground (arith, eq_iff s t)

abbrev mapper : IdMapper
mapper = ("a", pos 5) ∷ ("b", negsuc 0) ∷ ("c", pos 9) ∷ []

abbrev itself : ObjectId → List ObjectId
itself id = id ∷ []

only_last_removed_example :
    (keys : List String) × (collect_removals (λ id. ok (itself id)) mapper []
      ≡ ok (pos 9 ∷ [], keys))
    × (erase_keys keys mapper ≡ ("b", negsuc 0) ∷ [])
only_last_removed_example =
    Removal.only_last_removed itself mapper
      ((differ "b" "a" refl, (differ "c" "a" refl, tt)), ((differ "c" "b" refl, tt), (tt, tt)))
