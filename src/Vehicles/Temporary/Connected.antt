-- ===== src/Vehicles/Temporary/Connected.antt =====
-- One round of each loop of resolveAndStart in src/objects/TemporaryObject.cpp, for a new object.
use cosidia.Prelude.{
  ℤ, pos, ◌+ℤ◌, ◌≤ℤ◌, leb_ℤ, ◌+◌, true, false, ◌≡◌, ◌≢◌, ◌∙◌, ap, refl, sym, subst, none, List, [],
  ◌∷◌, arith,
}
use cosidia.Prelude.Result.{ok}
use cosidia.Std.Map.{find, assign}
use cosidia.Core.Clock.{TimePoint, at_millisecond, zero_time}
use cosidia.Core.Action.{Ref, ObjectId}
use cosidia.Objects.Object.{BaseObject, is_initialized, set_object_id, add_child, add_parent}
use cosidia.Objects.Container.{ObjectList, publish, add_to_object_container, insert_object}
use cosidia.Objects.Container.Lookup.{IsValid, add_to_object_container-IsValid}
use cosidia.Kernel.{System}
use cosidia.Kernel.Schedule.{add_object}
use cosidia.Vehicles.Temporary.{
  TemporaryObject, initialize, initialize_all, set_temp_mapping, connect_all, add_to_core,
}
use cosidia.Vehicles.Temporary.Ids.{initialize_new}
use cosidia.Vehicles.Temporary.Relatives.{Resolves, relate_list, relate_all-relate_list}

module _ {X : Type 0} where
  -- What the first loop does to the objects and the list of the core.
  pub record Starts (obj : TemporaryObject) (s s' : System X) : Type 0 where
    pub there :
        s'.objects obj.base_object
        ≡ set_object_id (pos (s.object_list.current_object_id + 1)) (s.objects obj.base_object)
    pub others : (p : Ref) → p ≢ obj.base_object → s'.objects p ≡ s.objects p
    pub list_eq :
        s'.object_list
        ≡ record s.object_list { current_object_id = s.object_list.current_object_id + 1 }
    pub thread_eq : s'.on_core_thread ≡ s.on_core_thread
    pub time_eq : s'.current_action_time ≡ s.current_action_time

  pub initialize-Starts :
      (t : TimePoint) (obj : TemporaryObject) (s : System X)
      → obj.initialized ≡ false
      → s.on_core_thread ≡ true
      → leb_ℤ zero_time (t +ℤ at_millisecond (pos 1)) ≡ true
      → s.current_action_time ≤ℤ t +ℤ at_millisecond (pos 1)
      → (s' : System X) × (initialize t obj s
          ≡ ok (set_temp_mapping (pos (s.object_list.current_object_id + 1)) obj, s'))
        × Starts obj s s'
  initialize-Starts t obj s new on h late = (
    _,
    initialize_new t obj s new on h late,
    record {
      there = ground arith;
      others = λ p n. ground arith;
      list_eq = refl;
      thread_eq = refl;
      time_eq = refl;
    },
  )

  pub initialize_all-cons :
      (t : TimePoint) (obj obj' : TemporaryObject) (rest list : List TemporaryObject)
      (m resolved : List (ℤ × TemporaryObject)) (s s' s'' : System X)
      → initialize t obj s ≡ ok (obj', s')
      → initialize_all t rest (assign obj'.temp_id obj' m) s' ≡ ok ((list, resolved), s'')
      → initialize_all t (obj ∷ rest) m s ≡ ok ((obj' ∷ list, resolved), s'')
  unfolding initialize_all
  initialize_all-cons t obj obj' rest list m resolved s s' s'' e f = ground (arith, e, f)

  pub initialize_all-nil :
      (t : TimePoint) (m : List (ℤ × TemporaryObject)) (s : System X)
      → initialize_all t [] m s ≡ ok (([], m), s)
  unfolding initialize_all
  initialize_all-nil t m s = refl

  -- An object that has its id keeps it.
  pub initialize_known :
      (t : TimePoint) (obj : TemporaryObject) (id : ObjectId) (s : System X)
      → obj.initialized ≡ true
      → (s.objects obj.base_object).object_id ≡ id
      → initialize t obj s ≡ ok (set_temp_mapping id obj, s)
  unfolding initialize
  initialize_known t obj id s known same = ground (arith, known, same)

  -- What the second loop does: `o` is the object then.
  pub record Connects (b : Ref) (o : BaseObject) (s s' : System X) : Type 0 where
    pub there : s'.objects b ≡ o
    pub others : (p : Ref) → p ≢ b → s'.objects p ≡ s.objects p
    pub active_eq :
        s'.object_list.working_copy.active_objects
        ≡ assign o.object_id b s.object_list.working_copy.active_objects
    pub valid : IsValid s'.object_list
    pub thread_eq : s'.on_core_thread ≡ s.on_core_thread

  add_to_list :
      (b : Ref) (s : System X)
      → IsValid s.object_list
      → is_initialized (s.objects b) ≡ ok true
      → find (s.objects b).object_id s.object_list.working_copy.active_objects ≡ none
      → (l : ObjectList) × (add_to_object_container true s.objects b s.object_list ≡ ok l)
        × (l.working_copy.active_objects
            ≡ assign (s.objects b).object_id b s.object_list.working_copy.active_objects)
  unfolding add_to_object_container insert_object
  add_to_list b s v i fresh = (
    publish
        (record s.object_list.working_copy {
          active_objects =
              assign (s.objects b).object_id b s.object_list.working_copy.active_objects;
        })
        s.object_list,
    ground (arith, i, fresh),
    refl,
  )

  add_object-Connects :
      (b : Ref) (s : System X)
      → s.on_core_thread ≡ true
      → IsValid s.object_list
      → is_initialized (s.objects b) ≡ ok true
      → find (s.objects b).object_id s.object_list.working_copy.active_objects ≡ none
      → (s' : System X) × (add_object b s ≡ ok (tt, s')) × Connects b (s.objects b) s s'
  unfolding add_object
  add_object-Connects b s on v i fresh =
      let (l, e, active) = add_to_list b s v i fresh in
      (
        record s { core = record s.core { object_list = l } },
        ground (arith, on, i, e),
        record {
          there = refl;
          others = λ p n. refl;
          active_eq = active;
          valid = add_to_object_container-IsValid s.objects b s.object_list l v e;
          thread_eq = refl;
        },
      )

  -- One round of the second loop for a new object, whose relatives are resolved.
  pub connect-Connects :
      (resolved : List (ℤ × TemporaryObject)) (obj : TemporaryObject)
      (children parents : List ObjectId) (o : BaseObject) (s : System X)
      → obj.initialized ≡ false
      → Resolves resolved obj.temp_children children
      → Resolves resolved obj.temp_parents parents
      → o
        ≡ relate_list add_parent parents
            (relate_list add_child children (s.objects obj.base_object))
      → s.on_core_thread ≡ true
      → IsValid s.object_list
      → is_initialized o ≡ ok true
      → find o.object_id s.object_list.working_copy.active_objects ≡ none
      → (s' : System X) × ((rest : List TemporaryObject)
          → connect_all resolved (obj ∷ rest) s ≡ connect_all resolved rest s')
        × Connects obj.base_object o s s'
  unfolding connect_all add_to_core
  connect-Connects resolved obj children parents o s new hc hp made on v i fresh =
      let b = obj.base_object in
      let (s1, e1, o1, n1, c1, t1) =
        relate_all-relate_list add_child resolved obj obj.temp_children children s hc in
      let (s2, e2, o2, n2, c2, t2) =
        relate_all-relate_list add_parent resolved obj obj.temp_parents parents s1 hp in
      let is : s2.objects b ≡ o = o2 ∙ ap (relate_list add_parent parents) o1 ∙ sym made in
      let same : s2.core ≡ s.core = c2 ∙ c1 in
      let lists : s2.object_list ≡ s.object_list = ap (λ c. c.object_list) same in
      let (s3, e3, k) =
        add_object-Connects b s2 (t2 ∙ t1 ∙ on) (subst IsValid (sym lists) v)
          (ap is_initialized is ∙ i) (rw (is, lists) fresh) in
      (
        s3,
        λ rest. ground (arith, new, e1, e2, e3),
        record {
          there = k.there ∙ is;
          others = λ p n. k.others p n ∙ n2 p n ∙ n1 p n;
          active_eq = k.active_eq ∙ rw (is, lists) refl;
          valid = k.valid;
          thread_eq = k.thread_eq ∙ t2 ∙ t1;
        },
      )

  -- The round for an object that stands in the list already: its relatives are written to it.
  pub connect_known :
      (resolved : List (ℤ × TemporaryObject)) (obj : TemporaryObject)
      (children parents : List ObjectId) (s : System X)
      → obj.initialized ≡ true
      → Resolves resolved obj.temp_children children
      → Resolves resolved obj.temp_parents parents
      → (s' : System X) × ((rest : List TemporaryObject)
          → connect_all resolved (obj ∷ rest) s ≡ connect_all resolved rest s')
        × ((p : Ref) → p ≢ obj.base_object → s'.objects p ≡ s.objects p)
        × (s'.core ≡ s.core)
        × (s'.on_core_thread ≡ s.on_core_thread)
  unfolding connect_all
  connect_known resolved obj children parents s known hc hp =
      let (s1, e1, o1, n1, c1, t1) =
        relate_all-relate_list add_child resolved obj obj.temp_children children s hc in
      let (s2, e2, o2, n2, c2, t2) =
        relate_all-relate_list add_parent resolved obj obj.temp_parents parents s1 hp in
      (s2, λ rest. ground (arith, known, e1, e2), λ p n. n2 p n ∙ n1 p n, c2 ∙ c1, t2 ∙ t1)
