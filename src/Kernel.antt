-- ===== src/Kernel.antt =====
-- The state that src/core/Core.hpp keeps, the heaps of actions and objects behind the shared
-- pointers, and the monad of code that runs on them. `X` is the state of the objects' subclasses.
-- Threads enter by `on_core_thread`: whether the running code is on the core's thread.
pub mod Schedule
pub mod Execution
pub mod Loop
pub mod Shutdown
use cosidia.Prelude.{ℤ, ℕ, ◌==◌, Bool, String, List, [], if◌then◌else◌, ◌≡◌, refl, arith}
use cosidia.Prelude.Result.{Result, ok, err, Error}
use cosidia.Core.Clock.{TimePoint, DebugClock}
use cosidia.Core.Action.{Ref, Action, Handler}
use cosidia.Core.ActionList.{HandlerMap}
use cosidia.Objects.Object.{BaseObject}
use cosidia.Objects.Container.{ObjectList}

-- The fields of Core that decide what is executed. The clock is the DebugClock; timers, threads,
-- the random generator and the timing buffer are left out.
pub record Core : Type 0 where
  pub clock : DebugClock
  pub handlers : HandlerMap Handler
  pub current_action_time : TimePoint
  pub object_list : ObjectList
  pub is_finished : Bool
  pub current_action_id : ℕ

pub record System (X : Type 0) : Type 0 where
  pub on_core_thread : Bool
  pub core : Core
  pub open core use *
  pub actions : Ref → Action
  pub next_action : ℕ
  pub objects : Ref → BaseObject
  pub model : X

abbrev pub M : Type 0 → Type 0 → Type 0
M X A = System X → Result (A × System X)

abbrev pub update : {A : Type 0} → (Ref → A) → Ref → A → Ref → A
update f p v q = if p == q then v else f q

module _ {X : Type 0} where
  abbrev pub pure : {A : Type 0} → A → M X A
  pure a s = ok (a, s)

  infixl 5 ◌>>=◌ ◌>>◌
  abbrev pub ◌>>=◌ : {A B : Type 0} → M X A → (A → M X B) → M X B
  ◌>>=◌ m f s = elim (m s) [ err e ↦ err e | ok (a, s') ↦ f a s' ]

  abbrev pub ◌>>◌ : {B : Type 0} → M X (Unit {0}) → M X B → M X B
  m >> k = m >>= λ _. k

  abbrev pub get : M X (System X)
  get s = ok (s, s)

  abbrev pub put : System X → M X (Unit {0})
  put s' s = ok (tt, s')

  abbrev pub lift : {A : Type 0} → Result A → M X A
  lift r s = elim r [ err e ↦ err e | ok a ↦ ok (a, s) ]

  abbrev pub throw : {A : Type 0} → Error → M X A
  throw e s = err e

  -- A write through a pointer to an action or to an object.
  abbrev pub set_action : Ref → Action → M X (Unit {0})
  set_action r a s = ok (tt, record s { actions = update s.actions r a })

  abbrev pub set_object : Ref → BaseObject → M X (Unit {0})
  set_object r o s = ok (tt, record s { objects = update s.objects r o })

  abbrev pub set_core : Core → M X (Unit {0})
  set_core c s = ok (tt, record s { core = c })

  -- What a successful run of two steps says of each.
  pub >>=-eq-ok :
      {A B : Type 0} (m : M X A) (f : A → M X B) (s : System X) {b : B} {s' : System X}
      → (m >>= f) s ≡ ok (b, s')
      → (a : A) × (t : System X) × (m s ≡ ok (a, t)) × (f a t ≡ ok (b, s'))
  >>=-eq-ok {A} {B} m f s {b} {s'} h = inv (m s) h
    where
      inv :
          (r : Result (A × System X))
          → (elim r [ err e ↦ err e | ok (a, t) ↦ f a t ]) ≡ ok (b, s')
          → (a : A) × (t : System X) × (r ≡ ok (a, t)) × (f a t ≡ ok (b, s'))
      inv (ok (a, t)) h = (a, t, refl, h)
      inv (err e) h = cc

pub update_self : {A : Type 0} (f : Ref → A) (p : Ref) (v : A) → update f p v p ≡ v
update_self f p v = ground arith
