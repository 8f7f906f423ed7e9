-- ===== src/Objects/Container/Unique.antt =====
-- The unique objects of src/objects/ObjectList.cpp, which are found by their name.
use cosidia.Prelude.{eqb_ℤ_iff, true, ◌≡◌, arith, String, Option-cases, inl, inr}
use cosidia.Prelude.Result.{ok}
use text.Mathlib.TextEquality.{eq_iff}
use cosidia.Std.Map.{find-update_at}
use cosidia.Core.Action.{Ref}
use cosidia.Objects.Container.{
  ObjectList, Objects, insert_object, insert_unique, add_unique, find_name, get_unique,
  get_unique_object_by_name,
}
use cosidia.Objects.Container.Lookup.{IsValid}

-- Where the core thread adds a unique object to a valid list and this does not throw, it is found
-- by its name from then on, and every unique object that was found by its name before still is.
pub get_unique-add_unique :
    (objects : Objects) (o : Ref) (l l' : ObjectList)
    → IsValid l
    → add_unique true objects o l ≡ ok l'
    → (get_unique_object_by_name (objects o).object_name l' ≡ ok o)
      × ((name : String) (p : Ref)
          → get_unique_object_by_name name l ≡ ok p
          → get_unique_object_by_name name l' ≡ ok p)
unfolding add_unique insert_unique insert_object get_unique_object_by_name get_unique find_name
get_unique-add_unique objects o l l' v added =
    let active = l.working_copy.active_objects in
    let new = (objects o).object_id in
    let set : Ref → Ref = λ _. o in
    (
      ground (
        arith,
        added,
        find-update_at new new o set active v.sorted,
        eqb_ℤ_iff new new,
        eq_iff (objects o).object_name (objects o).object_name,
      ),
      λ name p h. elim (Option-cases (find_name name l.working_copy.unique_objects)) [
        | inl e ↦ ground (arith, v.published, h, e)
        | inr (id, e) ↦ ground (
          arith,
          added,
          v.published,
          h,
          e,
          find-update_at new id o set active v.sorted,
          eqb_ℤ_iff new id,
          eq_iff (objects o).object_name name,
        )
      ],
    )
