-- ===== src/Utils/AnyMap/Typed.antt =====
-- Values come back from src/utils/AnyMap.hpp at their own type, and at no other.
use cosidia.Prelude.{◌≡◌, ◌≢◌, refl, ap, ◌∙◌, subst, some, List, ◌∷◌, String, arith}
use cosidia.Prelude.Result.{ok, err, runtime_error}
use mathlib.Core.Path.{subst_refl}
use mathlib.Core.HLevel.{hedberg}
use text.Mathlib.TextEquality.{eq_iff}
use cosidia.Utils.AnyMap.{Any, add, get, cast, find_any}

module _ {Tag : Type 0} (El : Tag → Type 0) (same_type : (s t : Tag) → Dec (s ≡ t)) where
  cast-own : (t : Tag) (v : El t) → cast El same_type t (t, v) ≡ ok v
  unfolding cast
  cast-own t v = go (same_type t t)
    where
      go :
          (d : Dec (t ≡ t))
          → (elim d [
            | yes p ↦ ok (subst El p v)
            | no n ↦ err (runtime_error "Wrong type in AnyMap")
          ])
            ≡ ok v
      go (yes p) =
          ap (λ q. ok (subst El q v)) (hedberg same_type t t p refl) ∙ ap ok (subst_refl El v)
      go (no n) = absurd (n refl)

  cast-other :
      (t u : Tag) (v : El t)
      → t ≢ u
      → cast El same_type u (t, v) ≡ err (runtime_error "Wrong type in AnyMap")
  unfolding cast
  cast-other t u v h = go (same_type t u)
    where
      go :
          (d : Dec (t ≡ u))
          → (elim d [
            | yes p ↦ ok (subst El p v)
            | no n ↦ err (runtime_error "Wrong type in AnyMap")
          ])
            ≡ err (runtime_error "Wrong type in AnyMap")
      go (yes p) = absurd (h p)
      go (no n) = refl

  get-found :
      (u : Tag) (j : String) (w : Any El same_type) (m : List (String × Any El same_type))
      → find_any El same_type j m ≡ some w
      → get El same_type u j m ≡ cast El same_type u w
  unfolding get
  get-found u j w m h = rw h

  get-cong :
      (u : Tag) (j : String) (m n : List (String × Any El same_type))
      → find_any El same_type j m ≡ find_any El same_type j n
      → get El same_type u j m ≡ get El same_type u j n
  unfolding get
  get-cong u j m n h = rw h

  add-eq :
      (t : Tag) (k : String) (v : El t) (m m' : List (String × Any El same_type))
      → add El same_type t k v m ≡ ok m'
      → m' ≡ (k, (t, v)) ∷ m
  unfolding add
  add-eq t k v m m' e = ground (arith, e)

  find_self :
      (k : String) (w : Any El same_type) (m : List (String × Any El same_type))
      → find_any El same_type k ((k, w) ∷ m) ≡ some w
  unfolding find_any
  find_self k w m = ground (arith, eq_iff k k)

  find_other :
      (k j : String) (w : Any El same_type) (m : List (String × Any El same_type))
      → k ≢ j
      → find_any El same_type j ((k, w) ∷ m) ≡ find_any El same_type j m
  unfolding find_any
  find_other k j w m h = ground (arith, eq_iff k j)

  -- Where a value is added under a name and this does not throw, it is got back at its own type; at
  -- any other type `get` throws that the type is wrong; and under every other name `get` gives, at
  -- every type, what it gave before, errors included.
  pub get-add :
      (t u w : Tag) (k j : String) (v : El t) (m m' : List (String × Any El same_type))
      → add El same_type t k v m ≡ ok m'
      → t ≢ u
      → k ≢ j
      → (get El same_type t k m' ≡ ok v)
        × (get El same_type u k m' ≡ err (runtime_error "Wrong type in AnyMap"))
        × (get El same_type w j m' ≡ get El same_type w j m)
  get-add t u w k j v m m' e other name =
      let grown = add-eq t k v m m' e in
      let found : find_any El same_type k m' ≡ some (t, v) =
        ap (find_any El same_type k) grown ∙ find_self k (t, v) m in
      (
        get-found t k (t, v) m' found ∙ cast-own t v,
        get-found u k (t, v) m' found ∙ cast-other t u v other,
        get-cong w j m' m (ap (find_any El same_type j) grown ∙ find_other k j (t, v) m name),
      )
