-- ===== src/Kernel/Loop/Removed.antt =====
-- Handlers of objects that have left the simulation, src/core/Core.cpp.
use cosidia.Prelude.{◌≡◌, ◌≢◌, refl, true, none, List, [], ◌∷◌, arith, All, eqb_ℤ_iff}
use cosidia.Prelude.Result.{ok}
use cosidia.Core.Action.{ObjectId, valid, Handler}
use cosidia.Objects.Container.{get_object_by_id_from_current_container, remove_from_simulation}
use cosidia.Objects.Container.Lookup
use cosidia.Objects.Container.Lookup.{IsValid}
use cosidia.Kernel.{System}
use cosidia.Kernel.Schedule.{remove_object_from_simulation}
use cosidia.Kernel.Execution.{Behaviour}
use cosidia.Kernel.Loop.{execute_handler, execute_handlers}

module _ {X : Type 0} (b : Behaviour X) where
  -- A handler with an id, for an object.
  abbrev pub IsFor : System X → ObjectId → Handler → Type 0
  IsFor s id h = ((s.actions h.action).action_id ≢ 0) × ((s.actions h.action).affected ≡ id)

  removed_list :
      (id : ObjectId) (s s' : System X)
      → remove_object_from_simulation id s ≡ ok (tt, s')
      → remove_from_simulation true id s.object_list ≡ ok s'.object_list
  unfolding remove_object_from_simulation
  removed_list id s s' e = ground arith

  lookup_removed :
      (id : ObjectId) (s s' : System X)
      → IsValid s.object_list
      → remove_object_from_simulation id s ≡ ok (tt, s')
      → get_object_by_id_from_current_container id s'.object_list ≡ ok none
  lookup_removed id s s' v e =
      let gone =
        Lookup.get_object-remove id s.object_list s'.object_list v (removed_list id s s' e) id in
      ground (arith, gone, eqb_ℤ_iff id id)

  execute_handler_dropped :
      (id : ObjectId) (s : System X) (h : Handler)
      → valid id ≡ true
      → get_object_by_id_from_current_container id s.object_list ≡ ok none
      → IsFor s id h
      → execute_handler b h s ≡ ok (tt, s)
  unfolding execute_handler
  execute_handler_dropped id s h v gone (n, d) = ground (arith, gone, v, n, d)

  dropped :
      (id : ObjectId) (s : System X) (hs : List Handler)
      → valid id ≡ true
      → get_object_by_id_from_current_container id s.object_list ≡ ok none
      → All (IsFor s id) hs
      → execute_handlers b hs s ≡ ok (tt, s)
  unfolding execute_handlers
  dropped id s [] v gone f = refl
  dropped id s (h ∷ hs) v gone (f, fs) =
      ground (arith, execute_handler_dropped id s h v gone f, dropped id s hs v gone fs)

  -- Once an object with a valid id is removed from a valid list of the simulation, and this did not
  -- throw, handlers for it whose actions have an id are dropped: executing them succeeds and
  -- changes nothing.
  pub removed_object_is_left_alone :
      (id : ObjectId) (s s' : System X) (hs : List Handler)
      → IsValid s.object_list
      → valid id ≡ true
      → remove_object_from_simulation id s ≡ ok (tt, s')
      → All (IsFor s' id) hs
      → execute_handlers b hs s' ≡ ok (tt, s')
  removed_object_is_left_alone id s s' hs valid_list v e f =
      dropped id s' hs v (lookup_removed id s s' valid_list e) f
