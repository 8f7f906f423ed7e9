-- ===== src/Std/Set.antt =====
-- std::set of integers: the elements in ascending order.
use cosidia.Prelude.{
  ℤ, ltb_ℤ, eqb_ℤ, eqb_ℤ_iff, ◌≡◌, Bool, true, false, List, [], ◌∷◌, if◌then◌else◌, arith, ◌||◌,
}

unfoldable pub member : ℤ → List ℤ → Bool
member k [] = false
member k (j ∷ s) = if eqb_ℤ j k then true else member k s

unfoldable pub insert : ℤ → List ℤ → List ℤ
insert k [] = k ∷ []
insert k (j ∷ s) = if ltb_ℤ k j then k ∷ j ∷ s else if ltb_ℤ j k then j ∷ insert k s else j ∷ s

pub member-insert : (k i : ℤ) (s : List ℤ) → member i (insert k s) ≡ (eqb_ℤ k i || member i s)
unfolding member insert
member-insert k i [] = ground arith
member-insert k i (j ∷ s) =
    ground (arith, member-insert k i s, eqb_ℤ_iff k i, eqb_ℤ_iff j i, eqb_ℤ_iff j k)
