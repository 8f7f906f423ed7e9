-- ===== src/Vehicles/Factory/Whole.antt =====
-- A vehicle that src/objects/ObjectFactory.cpp creates is removed whole by src/objects/ObjectRemover.cpp.
use cosidia.Prelude.{
  ℤ, pos, ◌+ℤ◌, ◌≤ℤ◌, leb_ℤ, ℕ, ◌+◌, ◌<◌, true, false, ◌≡◌, ◌∙◌, ap, refl, sym, subst, none, some,
  List, [], ◌∷◌, arith, String,
}
use cosidia.Prelude.Result.{ok}
use text.Mathlib.Text.{◌==◌ as str_eq}
use cosidia.Std.Map.{find, IsSorted}
use cosidia.Core.Clock.{TimePoint, at_millisecond, zero_time}
use cosidia.Core.Action.{Ref, ObjectId, valid}
use cosidia.Objects.Container.{ObjectContainer, get_unique}
use cosidia.Objects.Container.Lookup.{IsValid}
use cosidia.Objects.Relations.{get_objects_to_delete, removes_vehicle, IsVehicle}
use cosidia.Kernel.{System}
use cosidia.Vehicles.Factory.{create_object}
use cosidia.Vehicles.Temporary.{TemporaryObject, resolve_and_start, connect_all, initialize_all}
use cosidia.Vehicles.Temporary.Connected.{connect_known}
use cosidia.Vehicles.Factory.Created.{
  t_radio, t_channel, t_vehicle, t_router, create_object-IsCreated,
}
use cosidia.Vehicles.Factory.Numbered.{
  r_radio, r_channel, r_vehicle, r_router, resolved, IsNumbered, initialize_all-IsNumbered,
}
use cosidia.Vehicles.Factory.Linked.{one_known, rounds}

module _ {X : Type 0} where
  resolve_and_start-eq :
      (start : TimePoint) (objs list : List TemporaryObject) (m : List (ℤ × TemporaryObject))
      (s s4 s8 : System X)
      → initialize_all start objs [] s ≡ ok ((list, m), s4)
      → connect_all m list s4 ≡ ok (tt, s8)
      → resolve_and_start start objs s ≡ ok (tt, s8)
  unfolding resolve_and_start
  resolve_and_start-eq start objs list m s s4 s8 e f = ground (arith, e, f)

  numbered-IsValid :
      (free radio : Ref) (name : String) (k : ℕ) (s s4 s5 : System X)
      → IsNumbered free radio name k s s4
      → s5.core ≡ s4.core
      → IsValid s.object_list
      → IsValid s5.object_list
  numbered-IsValid free radio name k s s4 s5 n same v =
      let working = ap (λ c. c.object_list.working_copy) same ∙ n.list_is in
      record {
        published =
            ap (λ c. c.object_list.current_copy.container) same
            ∙ ap (λ x. x.container) n.copy_is
            ∙ v.published
            ∙ sym working;
        sorted = subst (λ w. IsSorted w.active_objects) (sym working) v.sorted;
      }

  linked :
      (start : TimePoint) (free radio : Ref) (k : ℕ) (r : ObjectId) (name : String)
      (s s1 s4 : System X)
      → initialize_all start
          (t_radio radio ∷ t_channel (free + 1) ∷ t_vehicle (free + 2) ∷ t_router free ∷ [])
          []
          s1
        ≡ ok (
          (
            r_radio radio r
                ∷ r_channel (free + 1) k
                ∷ r_vehicle (free + 2) k
                ∷ r_router free k
                ∷ [],
            resolved free radio k r,
          ),
          s4,
        )
      → IsNumbered free radio name k s s4
      → IsValid s.object_list
      → ((i : ℕ) → k < i → find (pos i) s.object_list.working_copy.active_objects ≡ none)
      → s.on_core_thread ≡ true
      → radio < free
      → valid r ≡ true
      → str_eq name "" ≡ false
      → (s' : System X) × (resolve_and_start start
            (t_radio radio ∷ t_channel (free + 1) ∷ t_vehicle (free + 2) ∷ t_router free ∷ [])
            s1
          ≡ ok (tt, s'))
        × IsVehicle s'.objects s'.object_list.working_copy
            (pos (k + 1))
            (pos (k + 2))
            (pos (k + 3))
            (free + 1)
            (free + 2)
            free
  linked start free radio k r name s s1 s4 e n v spare on below rv named =
      let (s5, e5, same, core, thread) =
        connect_known (resolved free radio k r) (r_radio radio r) (pos (k + 1) ∷ []) [] s4 refl
          (one_known free radio k r) tt in
      let working = ap (λ c. c.object_list.working_copy) core ∙ n.list_is in
      let (s8, e8, is) =
        rounds free radio k r name s5 (same (free + 1) (λ q. omega arith) ∙ n.channel_is)
          (same (free + 2) (λ q. omega arith) ∙ n.vehicle_is)
          (same free (λ q. omega arith) ∙ n.router_is)
          (numbered-IsValid free radio name k s s4 s5 n core v)
          (λ i h. ap (λ w. find (pos i) w.active_objects) working ∙ spare i h)
          (thread ∙ n.thread_is ∙ on) rv named in
      (s8, resolve_and_start-eq start _ _ (resolved free radio k r) s1 s4 s8 e (e5 _ ∙ e8), is)

  -- The core thread lets ObjectFactory create a vehicle with a name that is not empty, at pointers
  -- above that of the radio, which has a valid id, and then calls resolveAndStart: one millisecond
  -- after the given time is neither over nor before the start, the list is valid, and no id above
  -- the last one that was given is in it. Then nothing throws, the vehicle gets the second of the
  -- next three ids, and getObjectsToDelete on this id finds all that was created: the ids of the
  -- vehicle, of its microchannel and of its router.
  pub created_vehicle_removed :
      (start : TimePoint) (free radio : Ref) (name : String) (c : ObjectContainer) (s : System X)
      → IsValid s.object_list
      → ((i : ℕ)
          → s.object_list.current_object_id < i
          → find (pos i) s.object_list.working_copy.active_objects ≡ none)
      → s.on_core_thread ≡ true
      → leb_ℤ zero_time (start +ℤ at_millisecond (pos 1)) ≡ true
      → s.current_action_time ≤ℤ start +ℤ at_millisecond (pos 1)
      → get_unique "Radio" c ≡ ok radio
      → radio < free
      → valid (s.objects radio).object_id ≡ true
      → str_eq name "" ≡ false
      → let k = s.object_list.current_object_id in
        (objs : List TemporaryObject) × (s1 : System X) × (s' : System X) × (create_object "vehicle"
            free c
            (some (record { id = some name }))
            s
          ≡ ok (objs, s1))
        × (resolve_and_start start objs s1 ≡ ok (tt, s'))
        × (get_objects_to_delete s'.objects s'.object_list.working_copy "vehicle" (pos (k + 2))
            ≡ ok (pos (k + 2) ∷ pos (k + 1) ∷ pos (k + 3) ∷ []))
  created_vehicle_removed start free radio name c s v spare on h late known below rv named =
      let k = s.object_list.current_object_id in
      let r = (s.objects radio).object_id in
      let (s1, e1, made) = create_object-IsCreated free radio name c s known below in
      let (s4, e4, n) =
        initialize_all-IsNumbered free radio start name k s s1 made refl on h late in
      let (s8, e8, is) = linked start free radio k r name s s1 s4 e4 n v spare on below rv named in
      (
        _,
        s1,
        s8,
        e1,
        e8,
        removes_vehicle s8.objects s8.object_list.working_copy (pos (k + 1)) (pos (k + 2))
            (pos (k + 3)) (free + 1) (free + 2) free is,
      )
