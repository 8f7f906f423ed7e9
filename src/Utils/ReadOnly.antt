-- ===== src/Utils/ReadOnly.antt =====
-- src/utils/ReadOnly.hpp: a value that is set once. `none` is the state with `mSet` false.
use cosidia.Prelude.{true, false, ◌≡◌, Option, none, some, arith}
use cosidia.Prelude.Result.{Result, ok, err, runtime_error, ◌>>◌, enforce}

pub record ReadOnly {ℓ} (A : Type ℓ) : Type ℓ where
  pub element : Option A

module _ {ℓ} {A : Type ℓ} where
  abbrev pub unset : ReadOnly A
  unset = record { element = none }

  unfoldable pub set_element : A → ReadOnly A → Result (ReadOnly A)
  set_element value r = do
    enforce (elim r.element [ none ↦ true | some _ ↦ false ]) "Tried to ser Read Only was twice"
    ok (record { element = some value })

  get_from : Option A → Result A
  get_from none = err (runtime_error "Read Only has no initial value")
  get_from (some a) = ok a

  unfoldable pub get : ReadOnly A → Result A
  unfolding get_from
  get r = get_from r.element

-- Where a value can be set, there was none to get before; it is what is got from then on, and a
-- second value cannot be set.
pub set_once {ℓ} :
    {A : Type ℓ} (a b : A) (r r' : ReadOnly A)
    → set_element a r ≡ ok r'
    → (get r ≡ err (runtime_error "Read Only has no initial value"))
      × (get r' ≡ ok a)
      × (set_element b r' ≡ err (runtime_error "Tried to ser Read Only was twice"))
unfolding set_element get get_from
set_once a b r r' h = ground (arith, h)
