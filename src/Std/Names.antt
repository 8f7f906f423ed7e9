-- ===== src/Std/Names.antt =====
-- std::unordered_set of strings: the elements in the order of insertion; no order is promised.
use cosidia.Prelude.{
  ◌≡◌, refl, arith, Bool, true, false, not, ◌&&◌, ◌||◌, List, [], ◌∷◌, ◌++◌, String, if◌then◌else◌,
}
use text.Mathlib.Text.{◌==◌ as str_eq}
use text.Mathlib.TextEquality.{eq_iff}

unfoldable pub has : String → List String → Bool
has k [] = false
has k (j ∷ s) = if str_eq j k then true else has k s

unfoldable pub insert_name : String → List String → List String
unfolding has
insert_name k s = if has k s then s else s ++ k ∷ []

unfoldable pub erase_name : String → List String → List String
erase_name k [] = []
erase_name k (j ∷ s) = if str_eq j k then s else j ∷ erase_name k s

-- No name stands twice.
abbrev pub IsUnique : List String → Type 0
IsUnique [] = Unit {0}
IsUnique (k ∷ s) = (has k s ≡ false) × IsUnique s

has-append : (v k : String) (s : List String) → has v (s ++ k ∷ []) ≡ (has v s || str_eq k v)
unfolding has
has-append v k [] = ground arith
has-append v k (j ∷ s) = ground (arith, has-append v k s)

append-IsUnique :
    (k : String) (s : List String) → has k s ≡ false → IsUnique s → IsUnique (s ++ k ∷ [])
unfolding has
append-IsUnique k [] h u = (refl, tt)
append-IsUnique k (j ∷ s) h u = (
  ground (arith, has-append j k s, u.0, eq_iff j k, eq_iff k j, h),
  append-IsUnique k s (ground (arith, h)) u.1,
)

pub has-insert_name :
    (v k : String) (s : List String) → has v (insert_name k s) ≡ (has v s || str_eq k v)
unfolding insert_name
has-insert_name v k s = ground (arith, has-append v k s, eq_iff k v)

pub insert_name-IsUnique : (k : String) (s : List String) → IsUnique s → IsUnique (insert_name k s)
unfolding insert_name
insert_name-IsUnique k s u = ground (arith, append-IsUnique k s)

pub has-erase_name :
    (v k : String) (s : List String)
    → IsUnique s
    → has v (erase_name k s) ≡ (has v s && not (str_eq k v))
unfolding has erase_name
has-erase_name v k [] u = ground arith
has-erase_name v k (j ∷ s) u =
    ground (arith, has-erase_name v k s u.1, eq_iff j k, eq_iff j v, eq_iff k v, u.0)

pub erase_name-IsUnique : (k : String) (s : List String) → IsUnique s → IsUnique (erase_name k s)
unfolding erase_name
erase_name-IsUnique k [] u = tt
erase_name-IsUnique k (j ∷ s) u =
    ground (arith, has-erase_name j k s u.1, u.0, u.1, erase_name-IsUnique k s u.1)
