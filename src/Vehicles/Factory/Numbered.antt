-- ===== src/Vehicles/Factory/Numbered.antt =====
-- The ids that resolveAndStart in src/objects/TemporaryObject.cpp gives to the objects of a vehicle.
use cosidia.Prelude.{
  ℤ, pos, ◌+ℤ◌, ◌≤ℤ◌, leb_ℤ, ℕ, ◌+◌, true, ◌≡◌, ◌∙◌, ap, refl, subst, sym, List, [], ◌∷◌, arith,
  String,
}
use cosidia.Prelude.Result.{ok}
use cosidia.Std.Map.{update_at}
use cosidia.Core.Clock.{TimePoint, at_millisecond, zero_time}
use cosidia.Core.Action.{Ref, ObjectId}
use cosidia.Objects.Object.{BaseObject, new_object, plain, set_object_id}
use cosidia.Kernel.{System}
use cosidia.Vehicles.Temporary.{TemporaryObject, initialize_all, set_temp_mapping}
use cosidia.Vehicles.Temporary.Connected.{
  Starts, initialize-Starts, initialize_all-cons, initialize_all-nil, initialize_known,
}
use cosidia.Vehicles.Temporary.{initialize}
use cosidia.Vehicles.Factory.Created.{
  t_radio, t_channel, t_vehicle, t_router, named_vehicle, IsCreated,
}

-- The objects with their real ids, which follow `k`; the radio has the id `r` already.
abbrev pub r_radio : Ref → ObjectId → TemporaryObject
r_radio p r = set_temp_mapping r (t_radio p)

abbrev pub r_channel : Ref → ℕ → TemporaryObject
r_channel p k = set_temp_mapping (pos (k + 1)) (t_channel p)

abbrev pub r_vehicle : Ref → ℕ → TemporaryObject
r_vehicle p k = set_temp_mapping (pos (k + 2)) (t_vehicle p)

abbrev pub r_router : Ref → ℕ → TemporaryObject
r_router p k = set_temp_mapping (pos (k + 3)) (t_router p)

abbrev pub resolved : (free radio : Ref) → ℕ → ObjectId → List (ℤ × TemporaryObject)
resolved free radio k r =
    (pos 0, r_radio radio r)
    ∷ (pos 1, r_channel (free + 1) k)
    ∷ (pos 2, r_vehicle (free + 2) k)
    ∷ (pos 3, r_router free k)
    ∷ []

renumbered :
    {n k i : ℕ} {o o' : BaseObject}
    → n ≡ k
    → k + 1 ≡ i
    → o ≡ o'
    → set_object_id (pos (n + 1)) o ≡ set_object_id (pos i) o'
renumbered {n} {k} {i} {o} {o'} e f g =
    ap (λ (x : ℕ). set_object_id (pos x) o) (omega (arith, e, f)) ∙ ap (set_object_id (pos i)) g

module _ {X : Type 0} (free radio : Ref) where
  pub record IsNumbered (name : String) (k : ℕ) (s s4 : System X) : Type 0 where
    pub router_is : s4.objects free ≡ set_object_id (pos (k + 3)) (new_object plain "Router")
    pub channel_is :
        s4.objects (free + 1) ≡ set_object_id (pos (k + 1)) (new_object plain "Microchannel")
    pub vehicle_is : s4.objects (free + 2) ≡ set_object_id (pos (k + 2)) (named_vehicle name)
    pub list_is : s4.object_list.working_copy ≡ s.object_list.working_copy
    pub copy_is : s4.object_list.current_copy ≡ s.object_list.current_copy
    pub thread_is : s4.on_core_thread ≡ s.on_core_thread

  named :
      (start : TimePoint) (obj : TemporaryObject) (s s' : System X) {n k i : ℕ}
      → initialize start obj s ≡ ok (set_temp_mapping (pos (n + 1)) obj, s')
      → n ≡ k
      → k + 1 ≡ i
      → initialize start obj s ≡ ok (set_temp_mapping (pos i) obj, s')
  named start obj s s' {n} {k} {i} e f g =
      subst (λ (x : ℕ). initialize start obj s ≡ ok (set_temp_mapping (pos x) obj, s'))
        (omega (arith, f, g)) e

  gathered :
      (name : String) (k : ℕ) (s s1 s2 s3 s4 : System X)
      → IsCreated free radio name s s1
      → s1.object_list.current_object_id ≡ k
      → s2.object_list.current_object_id ≡ k + 1
      → s3.object_list.current_object_id ≡ k + 2
      → Starts (t_channel (free + 1)) s1 s2
      → Starts (t_vehicle (free + 2)) s2 s3
      → Starts (t_router free) s3 s4
      → IsNumbered name k s s4
  gathered name k s s1 s2 s3 s4 c n1 n2 n3 f2 f3 f4 = record {
    router_is =
        f4.there
        ∙ renumbered n3 (omega arith)
            (f3.others free (λ e. omega arith) ∙ f2.others free (λ e. omega arith) ∙ c.router_is);
    channel_is =
        f4.others (free + 1) (λ e. omega arith)
        ∙ f3.others (free + 1) (λ e. omega arith)
        ∙ f2.there
        ∙ renumbered n1 refl c.channel_is;
    vehicle_is =
        f4.others (free + 2) (λ e. omega arith)
        ∙ f3.there
        ∙ renumbered n2 (omega arith) (f2.others (free + 2) (λ e. omega arith) ∙ c.vehicle_is);
    list_is =
        ap (λ l. l.working_copy) f4.list_eq
        ∙ ap (λ l. l.working_copy) f3.list_eq
        ∙ ap (λ l. l.working_copy) f2.list_eq
        ∙ ap (λ x. x.object_list.working_copy) c.core_is;
    copy_is =
        ap (λ l. l.current_copy) f4.list_eq
        ∙ ap (λ l. l.current_copy) f3.list_eq
        ∙ ap (λ l. l.current_copy) f2.list_eq
        ∙ ap (λ x. x.object_list.current_copy) c.core_is;
    thread_is = f4.thread_eq ∙ f3.thread_eq ∙ f2.thread_eq ∙ c.thread_is;
  }

  all :
      (start : TimePoint) (k : ℕ) (s s1 s2 s3 s4 : System X)
      → s1.objects radio ≡ s.objects radio
      → initialize start (t_channel (free + 1)) s1 ≡ ok (r_channel (free + 1) k, s2)
      → initialize start (t_vehicle (free + 2)) s2 ≡ ok (r_vehicle (free + 2) k, s3)
      → initialize start (t_router free) s3 ≡ ok (r_router free k, s4)
      → initialize_all start
          (t_radio radio ∷ t_channel (free + 1) ∷ t_vehicle (free + 2) ∷ t_router free ∷ [])
          []
          s1
        ≡ ok (
          (
            r_radio radio (s.objects radio).object_id
                ∷ r_channel (free + 1) k
                ∷ r_vehicle (free + 2) k
                ∷ r_router free k
                ∷ [],
            resolved free radio k (s.objects radio).object_id,
          ),
          s4,
        )
  unfolding update_at
  all start k s s1 s2 s3 s4 same e2 e3 e4 =
      let id = (s.objects radio).object_id in
      initialize_all-cons start (t_radio radio) (r_radio radio id) _ _ [] _ s1 s1 s4
        (initialize_known start (t_radio radio) id s1 refl (ap (λ o. o.object_id) same))
        (initialize_all-cons start (t_channel (free + 1)) (r_channel (free + 1) k) _ _ _ _ s1 s2 s4
          e2
          (initialize_all-cons start (t_vehicle (free + 2)) (r_vehicle (free + 2) k) _ _ _ _ s2 s3
            s4 e3
            (initialize_all-cons start (t_router free) (r_router free k) [] [] _ _ s3 s4 s4 e4
              (initialize_all-nil start _ s4))))

  pub initialize_all-IsNumbered :
      (start : TimePoint) (name : String) (k : ℕ) (s s1 : System X)
      → IsCreated free radio name s s1
      → k ≡ s.object_list.current_object_id
      → s.on_core_thread ≡ true
      → leb_ℤ zero_time (start +ℤ at_millisecond (pos 1)) ≡ true
      → s.current_action_time ≤ℤ start +ℤ at_millisecond (pos 1)
      → (s4 : System X) × (initialize_all start
            (t_radio radio ∷ t_channel (free + 1) ∷ t_vehicle (free + 2) ∷ t_router free ∷ [])
            []
            s1
          ≡ ok (
            (
              r_radio radio (s.objects radio).object_id
                  ∷ r_channel (free + 1) k
                  ∷ r_vehicle (free + 2) k
                  ∷ r_router free k
                  ∷ [],
              resolved free radio k (s.objects radio).object_id,
            ),
            s4,
          ))
        × IsNumbered name k s s4
  initialize_all-IsNumbered start name k s s1 c first on h late =
      let on1 : s1.on_core_thread ≡ true = c.thread_is ∙ on in
      let late1 : s1.current_action_time ≤ℤ start +ℤ at_millisecond (pos 1) = rw c.core_is late in
      let count1 : s1.object_list.current_object_id ≡ k =
        ap (λ x. x.object_list.current_object_id) c.core_is ∙ sym first in
      let (s2, e2, f2) = initialize-Starts start (t_channel (free + 1)) s1 refl on1 h late1 in
      let late2 : s2.current_action_time ≤ℤ start +ℤ at_millisecond (pos 1) = rw f2.time_eq late1 in
      let count2 : s2.object_list.current_object_id ≡ k + 1 =
        ap (λ l. l.current_object_id) f2.list_eq ∙ omega (arith, count1) in
      let (s3, e3, f3) =
        initialize-Starts start (t_vehicle (free + 2)) s2 refl (f2.thread_eq ∙ on1) h late2 in
      let late3 : s3.current_action_time ≤ℤ start +ℤ at_millisecond (pos 1) = rw f3.time_eq late2 in
      let count3 : s3.object_list.current_object_id ≡ k + 2 =
        ap (λ l. l.current_object_id) f3.list_eq ∙ omega (arith, count2) in
      let (s4, e4, f4) =
        initialize-Starts start (t_router free) s3 refl (f3.thread_eq ∙ f2.thread_eq ∙ on1) h
          late3 in
      (
        s4,
        all start k s s1 s2 s3 s4 c.radio_is
            (named start (t_channel (free + 1)) s1 s2 e2 count1 refl)
            (named start (t_vehicle (free + 2)) s2 s3 e3 count2 (omega arith))
            (named start (t_router free) s3 s4 e4 count3 (omega arith)),
        gathered name k s s1 s2 s3 s4 c count1 count2 count3 f2 f3 f4,
      )
