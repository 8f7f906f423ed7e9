-- ===== src/Std/Map.antt =====
-- std::map with integer keys (time points, object ids): the pairs in ascending order of the key,
-- which is also the order of iteration.
use cosidia.Prelude.{
  ℤ, ◌<ℤ◌, ltb_ℤ, eqb_ℤ, eqb_ℤ_iff, eq_of_parts, ◌≡◌, refl, Bool, true, false, Option, none, some,
  List, [], ◌∷◌, if◌then◌else◌, arith,
}
use mathlib.Core.Option.{get_or}

module _ {V : Type 0} where
  unfoldable pub find : ℤ → List (ℤ × V) → Option V
  find k [] = none
  find k ((j, v) ∷ m) = if eqb_ℤ j k then some v else find k m

  abbrev pub contains : ℤ → List (ℤ × V) → Bool
  contains k m = elim (find k m) [ none ↦ false | some v ↦ true ]

  -- `f(m[k])` by reference: a missing key first gets the value `d`.
  unfoldable pub update_at : ℤ → V → (V → V) → List (ℤ × V) → List (ℤ × V)
  update_at k d f [] = (k, f d) ∷ []
  update_at k d f ((j, v) ∷ m) =
      if ltb_ℤ k j
      then (k, f d) ∷ (j, v) ∷ m
      else if ltb_ℤ j k
      then (j, v) ∷ update_at k d f m
      else (j, f v) ∷ m

  -- `m[k] = v`
  abbrev pub assign : ℤ → V → List (ℤ × V) → List (ℤ × V)
  assign k v = update_at k v (λ _. v)

  unfoldable pub erase : ℤ → List (ℤ × V) → List (ℤ × V)
  erase k [] = []
  erase k ((j, v) ∷ m) = if eqb_ℤ j k then m else (j, v) ∷ erase k m

  abbrev pub Above : ℤ → List (ℤ × V) → Type 0
  Above lo [] = Unit {0}
  Above lo ((k, v) ∷ m) = (lo <ℤ k) × Above k m

  -- The keys ascend, so none stands twice.
  abbrev pub IsSorted : List (ℤ × V) → Type 0
  IsSorted [] = Unit {0}
  IsSorted ((k, v) ∷ m) = Above k m

  pub Above-mono : (a b : ℤ) (m : List (ℤ × V)) → a <ℤ b → Above b m → Above a m
  Above-mono a b [] h s = tt
  Above-mono a b ((k, v) ∷ m) h s = (omega arith, s.1)

  pub Above-IsSorted : (a : ℤ) (m : List (ℤ × V)) → Above a m → IsSorted m
  Above-IsSorted a [] s = tt
  Above-IsSorted a ((k, v) ∷ m) s = s.1

  pub find_below : (a k : ℤ) (m : List (ℤ × V)) → Above a m → k <ℤ a → find k m ≡ none
  unfolding find
  find_below a k [] s h = refl
  find_below a k ((j, v) ∷ m) s h = ground (arith, find_below j k m s.1)

  pub find_self : (k : ℤ) (m : List (ℤ × V)) → Above k m → find k m ≡ none
  unfolding find
  find_self k [] s = refl
  find_self k ((j, v) ∷ m) s = ground (arith, find_below j k m s.1)

  pub update_at-Above :
      (lo k : ℤ) (d : V) (f : V → V) (m : List (ℤ × V))
      → lo <ℤ k
      → Above lo m
      → Above lo (update_at k d f m)
  unfolding update_at
  update_at-Above lo k d f [] h s = (h, tt)
  update_at-Above lo k d f ((j, v) ∷ m) h s =
      ground (arith, update_at-Above j k d f m, eq_of_parts k j)

  pub update_at-IsSorted :
      (k : ℤ) (d : V) (f : V → V) (m : List (ℤ × V)) → IsSorted m → IsSorted (update_at k d f m)
  unfolding update_at
  update_at-IsSorted k d f [] s = tt
  update_at-IsSorted k d f ((j, v) ∷ m) s = ground (arith, update_at-Above j k d f m)

  pub erase-Above : (lo k : ℤ) (m : List (ℤ × V)) → Above lo m → Above lo (erase k m)
  unfolding erase
  erase-Above lo k [] s = tt
  erase-Above lo k ((j, v) ∷ m) s = ground (arith, erase-Above j k m s.1, Above-mono lo j m s.0 s.1)

  pub erase-IsSorted : (k : ℤ) (m : List (ℤ × V)) → IsSorted m → IsSorted (erase k m)
  unfolding erase
  erase-IsSorted k [] s = tt
  erase-IsSorted k ((j, v) ∷ m) s = ground (arith, erase-Above j k m s, Above-IsSorted j m s)

  pub find-update_at :
      (k i : ℤ) (d : V) (f : V → V) (m : List (ℤ × V))
      → IsSorted m
      → find i (update_at k d f m)
        ≡ (if eqb_ℤ k i then some (f (get_or (find k m) d)) else find i m)
  unfolding find update_at
  find-update_at k i d f [] s = ground arith
  find-update_at k i d f ((j, v) ∷ m) s = ground (
    arith,
    find-update_at k i d f m (Above-IsSorted j m s),
    eqb_ℤ_iff k i,
    eqb_ℤ_iff j i,
    eqb_ℤ_iff j k,
    find_below j k m s,
  )

  pub find-erase :
      (k i : ℤ) (m : List (ℤ × V))
      → IsSorted m
      → find i (erase k m) ≡ (if eqb_ℤ k i then none else find i m)
  unfolding find erase
  find-erase k i [] s = ground arith
  find-erase k i ((j, v) ∷ m) s = ground (
    arith,
    find-erase k i m (Above-IsSorted j m s),
    eqb_ℤ_iff j k,
    eqb_ℤ_iff k i,
    eqb_ℤ_iff j i,
    find_self j m s,
  )
