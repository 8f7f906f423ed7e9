-- ===== src/Vehicles/Factory/Linked.antt =====
-- What the second loop of resolveAndStart in src/objects/TemporaryObject.cpp makes of the objects of a
-- vehicle: they are in the core's list, with each other's ids.
use cosidia.Prelude.{
  ℤ, pos, eqb_ℤ, ℕ, ◌+◌, ◌<◌, true, false, ◌≡◌, ◌≢◌, ◌∙◌, ap, refl, sym, none, some, List, [], ◌∷◌,
  arith, String, if◌then◌else◌,
}
use cosidia.Prelude.Result.{ok}
use text.Mathlib.Text.{◌==◌ as str_eq}
use cosidia.Std.Map.{find, assign, find-update_at, IsSorted}
use cosidia.Std.Set.{insert}
use cosidia.Utils.ReadOnly
use cosidia.Core.Action.{Ref, ObjectId, valid}
use cosidia.Objects.Object.{
  BaseObject, new_object, plain, set_object_id, is_initialized, add_parent, add_child,
}
use cosidia.Objects.Container.Lookup.{IsValid}
use cosidia.Objects.Relations.{IsVehicle}
use cosidia.Kernel.{System}
use cosidia.Vehicles.Temporary.{TemporaryObject, connect_all, get_real_id}
use cosidia.Vehicles.Temporary.Relatives.{Resolves, relate_list}
use cosidia.Vehicles.Temporary.Connected.{Connects, connect-Connects}
use cosidia.Vehicles.Factory.Created.{named_vehicle}
use cosidia.Vehicles.Factory.Numbered.{r_radio, r_channel, r_vehicle, r_router, resolved}

module _ (free radio : Ref) (k : ℕ) (r : ObjectId) where
  -- What the temporary ids resolve to.
  pub one_known : Resolves (resolved free radio k r) (pos 1 ∷ []) (pos (k + 1) ∷ [])
  unfolding find get_real_id
  one_known = ((r_channel (free + 1) k, refl, ground arith), tt)

  two_known :
      Resolves (resolved free radio k r) (pos 2 ∷ pos 3 ∷ []) (pos (k + 2) ∷ pos (k + 3) ∷ [])
  unfolding find get_real_id
  two_known =
      ((r_vehicle (free + 2) k, refl, ground arith), ((r_router free k, refl, ground arith), tt))

  radio_known : valid r ≡ true → Resolves (resolved free radio k r) (pos 0 ∷ []) (r ∷ [])
  unfolding find get_real_id
  radio_known v = ((r_radio radio r, refl, ground arith), tt)

-- The three objects with their relatives.
abbrev the_channel : ℕ → ObjectId → BaseObject
the_channel k r = record (set_object_id (pos (k + 1)) (new_object plain "Microchannel")) {
  child_id_list = pos (k + 2) ∷ pos (k + 3) ∷ [];
  parent_list = r ∷ [];
}

abbrev the_vehicle : String → ℕ → BaseObject
the_vehicle name k = record (set_object_id (pos (k + 2)) (named_vehicle name)) {
  parent_list = pos (k + 1) ∷ [];
}

abbrev the_router : ℕ → BaseObject
the_router k = record (set_object_id (pos (k + 3)) (new_object plain "Router")) {
  parent_list = pos (k + 1) ∷ [];
}

channel-made :
    (k : ℕ) (r : ObjectId)
    → the_channel k r
      ≡ relate_list add_parent (r ∷ []) (
          relate_list add_child
            (pos (k + 2) ∷ pos (k + 3) ∷ [])
            (set_object_id (pos (k + 1)) (new_object plain "Microchannel")))
unfolding insert
channel-made k r = ground arith

channel_initialized : (k : ℕ) (r : ObjectId) → is_initialized (the_channel k r) ≡ ok true
unfolding is_initialized
channel_initialized k r = ground arith

router_initialized : (k : ℕ) → is_initialized (the_router k) ≡ ok true
unfolding is_initialized
router_initialized k = ground arith

vehicle_initialized :
    (name : String) (k : ℕ) → str_eq name "" ≡ false → is_initialized (the_vehicle name k) ≡ ok true
unfolding is_initialized ReadOnly.get
vehicle_initialized name k h = ground (arith, h)

find-assign :
    (i j : ℤ) (v : Ref) (m : List (ℤ × Ref))
    → IsSorted m
    → find i (assign j v m) ≡ (if eqb_ℤ j i then some v else find i m)
find-assign i j v m s = find-update_at j i v (λ _. v) m s

-- An id that is not taken is not taken after another one is added.
still_free :
    (i j : ℕ) (v : Ref) (m m' : List (ℤ × Ref))
    → m' ≡ assign (pos j) v m
    → IsSorted m
    → i ≢ j
    → find (pos i) m ≡ none
    → find (pos i) m' ≡ none
still_free i j v m m' e s n h =
    ap (find (pos i)) e ∙ find-assign (pos i) (pos j) v m s ∙ ground (arith, h)

-- What was found is found after another one is added.
still_found :
    (i j : ℕ) (o v : Ref) (m m' : List (ℤ × Ref))
    → m' ≡ assign (pos j) v m
    → IsSorted m
    → i ≢ j
    → find (pos i) m ≡ some o
    → find (pos i) m' ≡ some o
still_found i j o v m m' e s n h =
    ap (find (pos i)) e ∙ find-assign (pos i) (pos j) v m s ∙ ground (arith, h)

now_found :
    (j : ℕ) (v : Ref) (m m' : List (ℤ × Ref))
    → m' ≡ assign (pos j) v m
    → IsSorted m
    → find (pos j) m' ≡ some v
now_found j v m m' e s = ap (find (pos j)) e ∙ find-assign (pos j) (pos j) v m s ∙ ground arith

module _ {X : Type 0} (free radio : Ref) (k : ℕ) (r : ObjectId) (name : String) where
  abbrev pub active : System X → List (ObjectId × Ref)
  active s = s.object_list.working_copy.active_objects

  connected-IsVehicle :
      (s5 s6 s7 s8 : System X)
      → IsValid s5.object_list
      → Connects (free + 1) (the_channel k r) s5 s6
      → Connects (free + 2) (the_vehicle name k) s6 s7
      → Connects free (the_router k) s7 s8
      → IsVehicle s8.objects s8.object_list.working_copy
          (pos (k + 1))
          (pos (k + 2))
          (pos (k + 3))
          (free + 1)
          (free + 2)
          free
  connected-IsVehicle s5 s6 s7 s8 v c6 c7 c8 =
      let channel : s8.objects (free + 1) ≡ the_channel k r =
        c8.others (free + 1) (λ e. omega arith)
        ∙ c7.others (free + 1) (λ e. omega arith)
        ∙ c6.there in
      let car : s8.objects (free + 2) ≡ the_vehicle name k =
        c8.others (free + 2) (λ e. omega arith) ∙ c7.there in
      let found6 = now_found (k + 1) (free + 1) (active s5) (active s6) c6.active_eq v.sorted in
      let found7 =
        now_found (k + 2) (free + 2) (active s6) (active s7) c7.active_eq c6.valid.sorted in
      record {
        channel_found =
            still_found (k + 1) (k + 3) (free + 1) free (active s7) (active s8) c8.active_eq
              c7.valid.sorted (λ e. omega arith)
              (still_found (k + 1) (k + 2) (free + 1) (free + 2) (active s6) (active s7)
                c7.active_eq c6.valid.sorted (λ e. omega arith) found6);
        vehicle_found =
            still_found (k + 2) (k + 3) (free + 2) free (active s7) (active s8) c8.active_eq
              c7.valid.sorted (λ e. omega arith) found7;
        router_found = now_found (k + 3) free (active s7) (active s8) c8.active_eq c7.valid.sorted;
        channel_name = ap (λ o. o.object_name) channel;
        vehicle_name = ap (λ o. o.object_name) car;
        router_name = ap (λ o. o.object_name) c8.there;
        channel_id = ap (λ o. o.object_id) channel;
        router_id = ap (λ o. o.object_id) c8.there;
        vehicle_parents = ap (λ o. o.parent_list) car;
        channel_children = ap (λ o. o.child_id_list) channel;
      }

  abbrev pub AreFree : System X → Type 0
  AreFree s = (i : ℕ) → k < i → find (pos i) (active s) ≡ none

  connect_all-nil :
      (m : List (ℤ × TemporaryObject)) (s : System X) → connect_all m [] s ≡ ok (tt, s)
  unfolding connect_all
  connect_all-nil m s = refl

  pub rounds :
      (s5 : System X)
      → s5.objects (free + 1) ≡ set_object_id (pos (k + 1)) (new_object plain "Microchannel")
      → s5.objects (free + 2) ≡ set_object_id (pos (k + 2)) (named_vehicle name)
      → s5.objects free ≡ set_object_id (pos (k + 3)) (new_object plain "Router")
      → IsValid s5.object_list
      → AreFree s5
      → s5.on_core_thread ≡ true
      → valid r ≡ true
      → str_eq name "" ≡ false
      → (s8 : System X) × (connect_all
            (resolved free radio k r)
            (r_channel (free + 1) k ∷ r_vehicle (free + 2) k ∷ r_router free k ∷ [])
            s5
          ≡ ok (tt, s8))
        × IsVehicle s8.objects s8.object_list.working_copy
            (pos (k + 1))
            (pos (k + 2))
            (pos (k + 3))
            (free + 1)
            (free + 2)
            free
  rounds s5 channel car router v spare on rv named =
      let map = resolved free radio k r in
      let one = one_known free radio k r in
      let (s6, e6, c6) =
        connect-Connects map (r_channel (free + 1) k) (pos (k + 2) ∷ pos (k + 3) ∷ []) (r ∷ [])
          (the_channel k r) s5 refl (two_known free radio k r) (radio_known free radio k r rv)
          (channel-made k r
            ∙ ap
                (λ o.
                  relate_list add_parent (r ∷ [])
                    (relate_list add_child (pos (k + 2) ∷ pos (k + 3) ∷ []) o))
                (sym channel))
          on v (channel_initialized k r) (spare (k + 1) (omega arith)) in
      let on6 : s6.on_core_thread ≡ true = c6.thread_eq ∙ on in
      let vehicle6 : s6.objects (free + 2) ≡ set_object_id (pos (k + 2)) (named_vehicle name) =
        c6.others (free + 2) (λ e. omega arith) ∙ car in
      let router6 : s6.objects free ≡ set_object_id (pos (k + 3)) (new_object plain "Router") =
        c6.others free (λ e. omega arith) ∙ router in
      let spare6 : (i : ℕ) → k + 1 < i → find (pos i) (active s6) ≡ none = λ i h.
        still_free i (k + 1) (free + 1) (active s5) (active s6) c6.active_eq v.sorted
          (λ e. omega arith) (spare i (omega arith)) in
      let (s7, e7, c7) =
        connect-Connects map (r_vehicle (free + 2) k) [] (pos (k + 1) ∷ []) (the_vehicle name k) s6
          refl tt one
          (unfold insert in ap (λ o. relate_list add_parent (pos (k + 1) ∷ []) o) (sym vehicle6))
          on6 c6.valid (vehicle_initialized name k named) (spare6 (k + 2) (omega arith)) in
      let (s8, e8, c8) =
        connect-Connects map (r_router free k) [] (pos (k + 1) ∷ []) (the_router k) s7 refl tt one
          (unfold insert in
            ap (λ o. relate_list add_parent (pos (k + 1) ∷ []) o)
              (sym (c7.others free (λ e. omega arith) ∙ router6)))
          (c7.thread_eq ∙ on6) c7.valid (router_initialized k)
          (still_free (k + 3) (k + 2) (free + 2) (active s6) (active s7) c7.active_eq
            c6.valid.sorted (λ e. omega arith) (spare6 (k + 3) (omega arith))) in
      (
        s8,
        e6 (r_vehicle (free + 2) k ∷ r_router free k ∷ [])
            ∙ e7 (r_router free k ∷ [])
            ∙ e8 []
            ∙ connect_all-nil map s8,
        connected-IsVehicle s5 s6 s7 s8 v c6 c7 c8,
      )
