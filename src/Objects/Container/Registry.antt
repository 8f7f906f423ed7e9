-- ===== src/Objects/Container/Registry.antt =====
-- What src/objects/ObjectList.cpp promises: a registry that has neither copies nor containers, only
-- what is known of each id, and the id of each unique object.
use cosidia.Prelude.{
  eqb_ℤ, Bool, true, false, not, ◌≡◌, Option, none, some, List, [], ◌∷◌, String, if◌then◌else◌,
}
use cosidia.Prelude.Result.{Result, ok, err, runtime_error, ◌>>=◌, ◌>>◌, enforce, deref}
use text.Mathlib.Text.{◌==◌ as str_eq}
use cosidia.Core.Action.{Ref, ObjectId}
use cosidia.Objects.Object.{is_initialized}
use cosidia.Objects.Container.{
  ObjectList, Objects, is_some, add_to_object_container, add_unique, remove_from_simulation,
  get_object_by_id_from_current_container, get_unique_object_by_name,
}

-- What is known of an id.
pub data Status : Type 0 where
  unknown : Status
  present : Ref → Status
  removed : Status

pub record Registry : Type 0 where
  pub status : ObjectId → Status
  pub named : String → Option ObjectId

abbrev pub new_registry : Registry
new_registry = record { status = λ id. unknown; named = λ name. none }

unfoldable pub is_present : Status → Bool
is_present (present o) = true
is_present s = false

abbrev pub set_status : ObjectId → Status → Registry → Registry
set_status id s r = record r { status = λ j. if eqb_ℤ id j then s else r.status j }

-- The calls of the core that change the list.
pub data Call : Type 0 where
  add unique : Ref → Call
  remove : ObjectId → Call

module _ (objects : Objects) where
  abbrev pub specified : Call → Registry → Result Registry
  specified (add o) r = do
    initialized ← is_initialized (objects o)
    enforce initialized "object not initialized"
    enforce (not (is_present (r.status (objects o).object_id))) "object already in container"
    ok (set_status (objects o).object_id (present o) r)
  specified (unique o) r = do
    initialized ← is_initialized (objects o)
    enforce initialized "object not initialized"
    enforce (not (is_some (r.named (objects o).object_name))) "unique object already in container"
    enforce (not (is_present (r.status (objects o).object_id))) "unique object already in container"
    ok (record (set_status (objects o).object_id (present o) r) {
      named = λ name.
          if str_eq (objects o).object_name name then some (objects o).object_id else r.named name;
    })
  specified (remove id) r = do
    enforce (is_present (r.status id)) "removed object not in container"
    ok (set_status id removed r)

  abbrev pub executed : Call → ObjectList → Result ObjectList
  executed (add o) l = add_to_object_container true objects o l
  executed (unique o) l = add_unique true objects o l
  executed (remove id) l = remove_from_simulation true id l

  unfoldable pub specified_all : List Call → Registry → Result Registry
  specified_all [] r = ok r
  specified_all (c ∷ cs) r = do r' ← specified c r; specified_all cs r'

  unfoldable pub executed_all : List Call → ObjectList → Result ObjectList
  executed_all [] l = ok l
  executed_all (c ∷ cs) l = do l' ← executed c l; executed_all cs l'

-- The two lookups.
abbrev pub answer : Status → Result (Option Ref)
answer unknown =
    err (runtime_error "ObjectContainer: requested objet not in container nor is it removed")
answer (present o) = ok (some o)
answer removed = ok none

abbrev pub present_object : Status → Result Ref
present_object (present o) = ok o
present_object removed = err (runtime_error "requested unique missing in object container")
present_object unknown = err (runtime_error "requested unique missing in object container")

abbrev pub unique_answer : String → Registry → Result Ref
unique_answer name r = do
  enforce (is_some (r.named name)) "requested unique object not in container"
  id ← deref (r.named name)
  present_object (r.status id)

-- All lookups agree.
abbrev pub SameAnswers : ObjectList → Registry → Type 0
SameAnswers l r =
    ((id : ObjectId) → get_object_by_id_from_current_container id l ≡ answer (r.status id))
    × ((name : String) → get_unique_object_by_name name l ≡ unique_answer name r)
