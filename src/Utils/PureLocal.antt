-- ===== src/Utils/PureLocal.antt =====
-- src/utils/PureLocal.hpp: an element that only its creator may reach. Pointers to objects are
-- numbers; dereferencing the element before it is constructed is undefined.
use cosidia.Prelude.{ℕ, ◌==◌, true, false, ◌≡◌, Option, none, some, arith, if◌then◌else◌}
use cosidia.Prelude.Result.{Result, ok, err, runtime_error, ◌>>=◌, ◌>>◌, enforce, deref}

pub record PureLocal {ℓ} (A : Type ℓ) : Type ℓ where
  pub creator : ℕ
  pub element : Option A

module _ {ℓ} {A : Type ℓ} where
  unfoldable pub construct_element : ℕ → A → PureLocal A → Result (PureLocal A)
  construct_element caller value p = do
    enforce (caller == p.creator) "PureLocal was used at a wrong place!"
    enforce (elim p.element [ none ↦ true | some _ ↦ false ])
        "PureLocal's element is already constructed"
    ok (record p { element = some value })

  unfoldable pub get_element : ℕ → PureLocal A → Result (Option A)
  get_element caller p = do
    enforce (caller == p.creator) "PureLocal was used at a wrong place!"
    ok p.element

  -- `operator()`, which dereferences the element.
  unfoldable pub apply : ℕ → PureLocal A → Result A
  apply caller p = do
    enforce (caller == p.creator) "PureLocal was used at a wrong place!"
    deref p.element

-- Once its creator has constructed the element of an empty local, only the creator reaches it:
-- everyone else's access, and every further construction, throws.
pub only_creator {ℓ} :
    {A : Type ℓ} (caller : ℕ) (a b : A) (p : PureLocal A)
    → p.element ≡ none
    → ((construct_element p.creator a p >>= apply caller) ≡ (
        if caller == p.creator
        then ok a
        else err (runtime_error "PureLocal was used at a wrong place!")))
      × ((construct_element p.creator a p >>= construct_element caller b)
          ≡ err (
              runtime_error (
                if caller == p.creator
                then "PureLocal's element is already constructed"
                else "PureLocal was used at a wrong place!")))
unfolding construct_element apply
only_creator caller a b p h = (ground (arith, h), ground (arith, h))
