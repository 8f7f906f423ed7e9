-- ===== src/Prelude/Result.antt =====
-- The outcome of C++ code: a value, or the exception that leaves the function. An `enforce` or
-- `invariant` (src/utils/enforce.hpp, src/utils/invariant.hpp) is modelled in the default build,
-- which defines COSIDIA_SAFE.
use Prim.Native.String.{String}
use mathlib.Core.Bool.{Bool, true, false}
use mathlib.Core.Path.{◌≡◌, refl}
use mathlib.Core.Logic.{◌⊎◌, inl, inr}
use mathlib.Core.Option.{Option, none, some}

pub data Error : Type 0 where
  -- `throw std::runtime_error(msg)`
  runtime_error : String → Error
  -- `std::map::at` of a missing key
  out_of_range : Error
  -- `dynamic_cast` to a reference of another class
  bad_cast : Error
  -- tcpip::SocketException
  socket_exception : Error
  -- boost::fibers::future_uninitialized, of a future with no state
  future_uninitialized : Error
  -- a std::exception, to which `throw e` cuts an exception that was caught by that type
  std_exception : Error
  -- no exception: the fuel of a loop has run out
  no_fuel : Error
  -- a failed `assert`
  assertion : Error
  -- undefined behaviour of C++: the end iterator or a null pointer is dereferenced
  undefined : Error

pub data Result {ℓ} (A : Type ℓ) : Type ℓ where
  ok : A → Result A
  err : Error → Result A

abbrev pub enforce : Bool → String → Result (Unit {0})
enforce true msg = ok tt
enforce false msg = err (runtime_error msg)

abbrev pub assert : Bool → Result (Unit {0})
assert true = ok tt
assert false = err assertion

-- A pointer or an iterator that is dereferenced with no test.
abbrev pub deref {ℓ} : {A : Type ℓ} → Option A → Result A
deref none = err undefined
deref (some a) = ok a

-- `get()` of a future whose result is there, or which has no state.
abbrev pub get_future {ℓ} : {A : Type ℓ} → Option A → Result A
get_future none = err future_uninitialized
get_future (some a) = ok a

-- The next statement runs where the first one returned.
infixl 5 ◌>>=◌ ◌>>◌
abbrev pub ◌>>=◌ {ℓ μ} : {A : Type ℓ} {B : Type μ} → Result A → (A → Result B) → Result B
ok x >>= next = next x
err thrown >>= next = err thrown

abbrev pub ◌>>◌ {ℓ} : {B : Type ℓ} → Result (Unit {0}) → Result B → Result B
m >> k = m >>= λ _. k

-- What a successful run of two steps says of each.
pub >>=-eq-ok {ℓ μ} :
    {A : Type ℓ} {B : Type μ} (r : Result A) (f : A → Result B) {b : B}
    → (r >>= f) ≡ ok b
    → (a : A) × (r ≡ ok a) × (f a ≡ ok b)
>>=-eq-ok (ok a) f h = (a, refl, h)
>>=-eq-ok (err e) f h = cc

pub Result-cases :
    {A : Type 0} (r : Result A) → ((e : Error) × (r ≡ err e)) ⊎ ((a : A) × (r ≡ ok a))
Result-cases (ok a) = inr (a, refl)
Result-cases (err e) = inl (e, refl)
