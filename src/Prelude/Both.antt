-- ===== src/Prelude/Both.antt =====
-- Two fallible computations that end alike.
use mathlib.Core.Path.{◌≡◌, refl}
use cosidia.Prelude.Result.{Error, Result, ok, err, ◌>>=◌}

-- Both fail with the same error, or both succeed with related results.
unfoldable pub Both : {A B : Type 0} → (A → B → Type 0) → Result A → Result B → Type 0
Both R (ok a) (ok b) = R a b
Both R (err e) (err e') = e ≡ e'
Both R (ok a) (err e) = ⊥
Both R (err e) (ok b) = ⊥

pub Both-err :
    {A B : Type 0} (R : A → B → Type 0) {x : Result A} {y : Result B} (e : Error)
    → x ≡ err e
    → y ≡ err e
    → Both R x y
unfolding Both
Both-err R e p q = rw (p, q) refl

pub Both-ok :
    {A B : Type 0} (R : A → B → Type 0) {x : Result A} {y : Result B} {a : A} {b : B}
    → x ≡ ok a
    → y ≡ ok b
    → R a b
    → Both R x y
unfolding Both
Both-ok R p q h = rw (p, q) h

pub Both-bind :
    {A B C D : Type 0} (R : A → B → Type 0) (S : C → D → Type 0) (x : Result A) (y : Result B)
    (f : A → Result C) (g : B → Result D)
    → Both R x y
    → ((a : A) (b : B) → R a b → Both S (f a) (g b))
    → Both S (x >>= f) (y >>= g)
unfolding Both
Both-bind R S (ok a) (ok b) f g h k = k a b h
Both-bind R S (err e) (err e') f g h k = h
Both-bind R S (ok a) (err e) f g h k = absurd h
Both-bind R S (err e) (ok b) f g h k = absurd h
