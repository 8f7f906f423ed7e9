-- ===== src/Utils/AnyMap.antt =====
-- src/utils/AnyMap.hpp: values of any type under names. A value is kept with the tag of its type, by
-- which `get` finds out whether it has the type that is asked for; `El` gives the type of a tag.
pub mod Typed
use cosidia.Prelude.{
  ◌≡◌, subst, Option, none, some, List, [], ◌∷◌, String, true, false, if◌then◌else◌,
}
use cosidia.Prelude.Result.{Result, ok, err, runtime_error, ◌>>=◌, ◌>>◌, enforce, deref}
use text.Mathlib.Text.{◌==◌ as str_eq}

module _ {Tag : Type 0} (El : Tag → Type 0) (same_type : (s t : Tag) → Dec (s ≡ t)) where
  -- boost::any
  abbrev pub Any : Type 0
  Any = (t : Tag) × El t

  unfoldable pub find_any : String → List (String × Any) → Option Any
  find_any k [] = none
  find_any k ((j, v) ∷ m) = if str_eq j k then some v else find_any k m

  unfoldable pub add :
      (t : Tag) → String → El t → List (String × Any) → Result (List (String × Any))
  unfolding find_any
  add t k v m = do
    enforce (elim (find_any k m) [ none ↦ true | some _ ↦ false ]) "Element allready in AnyMap"
    ok ((k, (t, v)) ∷ m)

  -- boost::any_cast
  cast : (t : Tag) → Any → Result (El t)
  cast t (u, v) = elim (same_type u t) [
    | yes p ↦ ok (subst El p v)
    | no n ↦ err (runtime_error "Wrong type in AnyMap")
  ]

  unfoldable pub get : (t : Tag) → String → List (String × Any) → Result (El t)
  unfolding find_any cast
  get t k m = do
    enforce (elim (find_any k m) [ none ↦ false | some _ ↦ true ]) "Element not in AnyMap"
    v ← deref (find_any k m)
    cast t v
