-- ===== src/Objects/Container/Refines.antt =====
-- The object list of src/objects/ObjectList.cpp does what the registry says.
use cosidia.Prelude.{
  ap, ◌∙◌, Bool, true, false, ◌≡◌, refl, Option, none, some, List, [], ◌∷◌, String, if◌then◌else◌,
  arith, Option-cases, inl, inr,
}
use cosidia.Prelude.Result.{Result-cases, ok, runtime_error}
use text.Mathlib.Text.{◌==◌ as str_eq}
use cosidia.Std.Map.{find, erase, assign, update_at-IsSorted, find-update_at, find-erase}
use cosidia.Std.Set.{member, member-insert}
use cosidia.Core.Action.{Ref, ObjectId}
use cosidia.Objects.Object.{is_initialized}
use cosidia.Objects.Container.{
  ObjectList, Objects, new_list, is_some, insert_object, insert_unique, remove_id, find_name,
  add_to_object_container, add_unique, remove_from_simulation, get_object, get_unique,
  get_object_by_id_from_current_container, get_unique_object_by_name, publish, mark_removed,
}
use cosidia.Prelude.Both.{Both, Both-err, Both-ok, Both-bind}
use cosidia.Objects.Container.Registry.{
  Status, unknown, present, removed, is_present, Registry, new_registry, set_status, Call, add,
  unique, remove, specified, executed, specified_all, executed_all, SameAnswers,
}
use cosidia.Objects.Container.Lookup.{
  IsValid, new_list-IsValid, add_to_object_container-IsValid, remove_from_simulation-IsValid,
}

-- What a container tells of an id.
status_of : Option Ref → Bool → Status
status_of (some o) b = present o
status_of none true = removed
status_of none false = unknown

-- The list stands for the registry, and readers see its working copy.
record Represents (l : ObjectList) (r : Registry) : Type 0 where
  valid : IsValid l
  ids :
      (id : ObjectId)
      → r.status id
        ≡ status_of
            (find id l.working_copy.active_objects)
            (member id l.working_copy.removed_objects)
  names : (name : String) → r.named name ≡ find_name name l.working_copy.unique_objects

Represents-SameAnswers : (l : ObjectList) (r : Registry) → Represents l r → SameAnswers l r
unfolding get_object_by_id_from_current_container get_object get_unique_object_by_name get_unique
    status_of
Represents-SameAnswers l r p = (
  λ id. ground (arith, p.ids id, p.valid.published),
  λ name. elim (Option-cases (find_name name l.working_copy.unique_objects)) [
    | inl e ↦ ground (arith, p.names name, p.valid.published, e)
    | inr (id, e) ↦ ground (arith, p.names name, p.valid.published, e, p.ids id)
  ],
)

is_present-status_of : (o : Option Ref) (b : Bool) → is_present (status_of o b) ≡ is_some o
unfolding is_present status_of
is_present-status_of (some o) b = refl
is_present-status_of none true = refl
is_present-status_of none false = refl

module _ (objects : Objects) (l : ObjectList) (r : Registry) (p : Represents l r) where
  -- Whether an id is taken is the same question to both.
  taken :
      (id : ObjectId) → is_present (r.status id) ≡ is_some (find id l.working_copy.active_objects)
  taken id =
      ap is_present (p.ids id)
      ∙ is_present-status_of (find id l.working_copy.active_objects)
          (member id l.working_copy.removed_objects)

  added-Represents :
      (o : Ref) (l' : ObjectList)
      → add_to_object_container true objects o l ≡ ok l'
      → Represents l' (set_status (objects o).object_id (present o) r)
  unfolding add_to_object_container insert_object status_of
  added-Represents o l' e = record {
    valid = add_to_object_container-IsValid objects o l l' p.valid e;
    ids = λ id. ground (
      arith,
      e,
      p.ids id,
      find-update_at (objects o).object_id id o (λ (_ : Ref). o) l.working_copy.active_objects
          p.valid.sorted,
    );
    names = λ name. ground (arith, e, p.names name);
  }

  removed-Represents :
      (gone : ObjectId) (l' : ObjectList)
      → remove_from_simulation true gone l ≡ ok l'
      → Represents l' (set_status gone removed r)
  unfolding remove_from_simulation remove_id status_of
  removed-Represents gone l' e = record {
    valid = remove_from_simulation-IsValid gone l l' p.valid e;
    ids = λ id. ground (
      arith,
      e,
      p.ids id,
      find-erase gone id l.working_copy.active_objects p.valid.sorted,
      member-insert gone id l.working_copy.removed_objects,
    );
    names = λ name. ground (arith, e, p.names name);
  }

  remove-Both :
      (gone : ObjectId)
      → Both Represents (remove_from_simulation true gone l) (specified objects (remove gone) r)
  unfolding remove_from_simulation remove_id
  remove-Both gone = elim (Option-cases (find gone l.working_copy.active_objects)) [
    | inl e ↦
        Both-err Represents (runtime_error "removed object not in container") (ground (arith, e))
          (ground (arith, taken gone, e))
    | inr (o, e) ↦
        let l' =
          publish
            (mark_removed gone
              (record l.working_copy { active_objects = erase gone l.working_copy.active_objects }))
            l in
        let done : remove_from_simulation true gone l ≡ ok l' = ground (arith, e) in
        Both-ok Represents done (ground (arith, taken gone, e)) (removed-Represents gone l' done)
  ]

  added : Ref → ObjectList
  added o =
      publish
        (record l.working_copy {
          active_objects = assign (objects o).object_id o l.working_copy.active_objects;
        })
        l

  add-Both :
      (o : Ref)
      → Both Represents (add_to_object_container true objects o l) (specified objects (add o) r)
  unfolding add_to_object_container insert_object added
  add-Both o = elim (Result-cases (is_initialized (objects o))) [
    | inl (x, i) ↦ Both-err Represents x (ground (arith, i)) (ground (arith, i))
    | inr (false, i) ↦
        Both-err Represents (runtime_error "object not initialized") (ground (arith, i))
          (ground (arith, i))
    | inr (true, i) ↦
        elim (Option-cases (find (objects o).object_id l.working_copy.active_objects)) [
          | inr (other, e) ↦
              Both-err Represents (runtime_error "object already in container")
                (ground (arith, i, e)) (ground (arith, i, taken (objects o).object_id, e))
          | inl e ↦
              let done : add_to_object_container true objects o l ≡ ok (added o) =
                ground (arith, i, e) in
              Both-ok Represents done (ground (arith, i, taken (objects o).object_id, e))
                (added-Represents o (added o) done)
        ]
  ]

  added_unique : Ref → ObjectList
  added_unique o =
      publish
        (record l.working_copy {
          active_objects = assign (objects o).object_id o l.working_copy.active_objects;
          unique_objects =
              ((objects o).object_name, (objects o).object_id) ∷ l.working_copy.unique_objects;
        })
        l

  added_unique-Represents :
      (o : Ref)
      → Represents (added_unique o) (record (set_status (objects o).object_id (present o) r) {
        named = λ name.
            if str_eq (objects o).object_name name
            then some (objects o).object_id
            else r.named name;
      })
  unfolding added_unique status_of find_name
  added_unique-Represents o =
      let active = l.working_copy.active_objects in
      let new = (objects o).object_id in
      let set : Ref → Ref = λ _. o in
      record {
        valid = record {
          published = refl;
          sorted = update_at-IsSorted new o set active p.valid.sorted;
        };
        ids = λ id. ground (arith, p.ids id, find-update_at new id o set active p.valid.sorted);
        names = λ name. ground (arith, p.names name);
      }

  unique-Both :
      (o : Ref) → Both Represents (add_unique true objects o l) (specified objects (unique o) r)
  unfolding add_unique insert_unique insert_object added_unique
  unique-Both o = elim (Result-cases (is_initialized (objects o))) [
    | inl (x, i) ↦ Both-err Represents x (ground (arith, i)) (ground (arith, i))
    | inr (false, i) ↦
        Both-err Represents (runtime_error "object not initialized") (ground (arith, i))
          (ground (arith, i))
    | inr (true, i) ↦
        let same = p.names (objects o).object_name in
        elim (Option-cases (find_name (objects o).object_name l.working_copy.unique_objects)) [
          | inr (id, n) ↦
              Both-err Represents (runtime_error "unique object already in container")
                (ground (arith, i, n)) (ground (arith, i, n, same))
          | inl n ↦ elim (Option-cases (find (objects o).object_id l.working_copy.active_objects)) [
            | inr (other, e) ↦
                Both-err Represents (runtime_error "unique object already in container")
                  (ground (arith, i, n, e))
                  (ground (arith, i, n, same, taken (objects o).object_id, e))
            | inl e ↦
                Both-ok Represents {a = added_unique o} (ground (arith, i, n, e))
                  (ground (arith, i, n, same, taken (objects o).object_id, e))
                  (added_unique-Represents o)
          ]
        ]
  ]

-- One call is carried out as it is specified.
call-Both :
    (objects : Objects) (c : Call) (l : ObjectList) (r : Registry)
    → Represents l r
    → Both Represents (executed objects c l) (specified objects c r)
call-Both objects (add o) l r p = add-Both objects l r p o
call-Both objects (unique o) l r p = unique-Both objects l r p o
call-Both objects (remove id) l r p = remove-Both objects l r p id

all-Both :
    (objects : Objects) (cs : List Call) (l : ObjectList) (r : Registry)
    → Represents l r
    → Both SameAnswers (executed_all objects cs l) (specified_all objects cs r)
unfolding executed_all specified_all
all-Both objects [] l r p = unfold Both in Represents-SameAnswers l r p
all-Both objects (c ∷ cs) l r p =
    Both-bind Represents SameAnswers (executed objects c l) (specified objects c r) _ _
      (call-Both objects c l r p) (all-Both objects cs)

-- Whatever additions, additions of unique objects and removals the core thread asks of a new list,
-- in whatever order: it fails just when the abstract registry fails, with the same error, and
-- else every lookup of an id and of a name answers as the registry does.
pub list_is_registry :
    (objects : Objects) (cs : List Call)
    → Both SameAnswers (executed_all objects cs new_list) (specified_all objects cs new_registry)
unfolding find find_name member status_of
list_is_registry objects cs =
    all-Both objects cs new_list new_registry
      (record { valid = new_list-IsValid; ids = λ id. refl; names = λ name. refl })
