-- ===== src/Vehicles/Temporary/Relatives.antt =====
-- The relations that src/objects/TemporaryObject.cpp writes to an object.
use cosidia.Prelude.{ℤ, ◌≡◌, ◌≢◌, ◌∙◌, ap, refl, ◌||◌, some, List, [], ◌∷◌, arith}
use cosidia.Prelude.Result.{ok}
use cosidia.Std.Map.{find}
use cosidia.Std.Set.{member, member-insert}
use cosidia.Core.Action.{Ref, ObjectId}
use cosidia.Objects.Object.{BaseObject, add_child, add_parent}
use cosidia.Kernel.{System, update, update_self, ◌>>◌}
use cosidia.Vehicles.Temporary.{TemporaryObject, get_real_id, relate_all}

-- Each temporary id is registered for an object with the real id beside it.
abbrev pub Resolves : List (ℤ × TemporaryObject) → List ObjectId → List ObjectId → Type 0
Resolves resolved [] [] = Unit
Resolves resolved (id ∷ ids) (real ∷ reals) =
    ((t : TemporaryObject) × (find id resolved ≡ some t) × (get_real_id t ≡ ok real))
    × Resolves resolved ids reals
Resolves resolved [] (real ∷ reals) = ⊥
Resolves resolved (id ∷ ids) [] = ⊥

abbrev pub relate_list :
    (ObjectId → BaseObject → BaseObject) → List ObjectId → BaseObject → BaseObject
relate_list relate [] o = o
relate_list relate (real ∷ reals) o = relate_list relate reals (relate real o)

member-children :
    (reals : List ObjectId) (o : BaseObject) (r : ObjectId)
    → member r (relate_list add_child reals o).child_id_list
      ≡ (member r reals || member r o.child_id_list)
unfolding member
member-children [] o r = refl
member-children (real ∷ reals) o r =
    ground (arith, member-children reals (add_child real o) r, member-insert real r o.child_id_list)

member-parents :
    (reals : List ObjectId) (o : BaseObject) (r : ObjectId)
    → member r (relate_list add_parent reals o).parent_list
      ≡ (member r reals || member r o.parent_list)
unfolding member
member-parents [] o r = refl
member-parents (real ∷ reals) o r =
    ground (arith, member-parents reals (add_parent real o) r, member-insert real r o.parent_list)

relate_list-add_parent :
    (reals : List ObjectId) (o : BaseObject)
    → (relate_list add_parent reals o).child_id_list ≡ o.child_id_list
relate_list-add_parent [] o = refl
relate_list-add_parent (real ∷ reals) o = relate_list-add_parent reals (add_parent real o)

relate_list-add_child :
    (reals : List ObjectId) (o : BaseObject)
    → (relate_list add_child reals o).parent_list ≡ o.parent_list
relate_list-add_child [] o = refl
relate_list-add_child (real ∷ reals) o = relate_list-add_child reals (add_child real o)

module _ {X : Type 0} where
  pub relate_all-relate_list :
      (relate : ObjectId → BaseObject → BaseObject) (resolved : List (ℤ × TemporaryObject))
      (obj : TemporaryObject) (ids reals : List ObjectId) (s : System X)
      → Resolves resolved ids reals
      → (s' : System X) × (relate_all relate resolved obj ids s ≡ ok (tt, s'))
        × (s'.objects obj.base_object ≡ relate_list relate reals (s.objects obj.base_object))
        × ((p : Ref) → p ≢ obj.base_object → s'.objects p ≡ s.objects p)
        × (s'.core ≡ s.core)
        × (s'.on_core_thread ≡ s.on_core_thread)
  unfolding relate_all
  relate_all-relate_list relate resolved obj [] [] s h = (s, refl, refl, λ p n. refl, refl, refl)
  relate_all-relate_list relate resolved obj (id ∷ ids) (real ∷ reals) s ((t, found, real_eq), h) =
      let b = obj.base_object in
      let s1 = record s { objects = update s.objects b (relate real (s.objects b)) } in
      let (s', e, there, others, core, on) =
        relate_all-relate_list relate resolved obj ids reals s1 h in
      (
        s',
        ground (arith, found, real_eq, e),
        ground (arith, there, update_self s.objects b (relate real (s.objects b))),
        λ p n. others p n ∙ ground arith,
        core,
        on,
      )
  relate_all-relate_list relate resolved obj [] (real ∷ reals) s h = absurd h
  relate_all-relate_list relate resolved obj (id ∷ ids) [] s h = absurd h

  -- Where every temporary child and parent is resolved, both loops over them succeed. The object's
  -- children are then those it had and the real ids of its temporary children, likewise its
  -- parents, and no other object is changed.
  pub relatives :
      (resolved : List (ℤ × TemporaryObject)) (obj : TemporaryObject)
      (children parents : List ObjectId) (s : System X)
      → Resolves resolved obj.temp_children children
      → Resolves resolved obj.temp_parents parents
      → let o = s.objects obj.base_object in
        (s' : System X) × ((relate_all add_child resolved obj obj.temp_children
              >> relate_all add_parent resolved obj obj.temp_parents)
            s
          ≡ ok (tt, s'))
        × ((r : ObjectId)
            → member r (s'.objects obj.base_object).child_id_list
              ≡ (member r children || member r o.child_id_list))
        × ((r : ObjectId)
            → member r (s'.objects obj.base_object).parent_list
              ≡ (member r parents || member r o.parent_list))
        × ((p : Ref) → p ≢ obj.base_object → s'.objects p ≡ s.objects p)
  relatives resolved obj children parents s hc hp =
      let (s1, e1, o1, n1, _, _) =
        relate_all-relate_list add_child resolved obj obj.temp_children children s hc in
      let (s2, e2, o2, n2, _, _) =
        relate_all-relate_list add_parent resolved obj obj.temp_parents parents s1 hp in
      let o = s.objects obj.base_object in
      (
        s2,
        ground (arith, e1, e2),
        λ r.
            ap (λ x. member r x.child_id_list) o2
            ∙ ap (member r) (relate_list-add_parent parents (s1.objects obj.base_object))
            ∙ ap (λ x. member r x.child_id_list) o1
            ∙ member-children children o r,
        λ r.
            ap (λ x. member r x.parent_list) o2
            ∙ member-parents parents (s1.objects obj.base_object) r
            ∙ ap (λ x. member r parents || member r x.parent_list) o1
            ∙ ap (λ x. member r parents || member r x) (relate_list-add_child children o),
        λ p n. n2 p n ∙ n1 p n,
      )
