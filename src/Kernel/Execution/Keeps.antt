-- ===== src/Kernel/Execution/Keeps.antt =====
-- What the code of src/objects/BaseObject.cpp leaves alone in the core: the current time, the end
-- of the simulation and the thread.
use cosidia.Prelude.{Bool, true, false, ◌≡◌, arith, if◌then◌else◌, ◌∙◌}
use cosidia.Prelude.Result.{Result, ok}
use cosidia.Core.Action.{Ref, HandlerKind, start_handler, end_handler, init_handler}
use cosidia.Core.Action.{Action}
use cosidia.Objects.Object.{BaseObject}
use cosidia.Kernel.{System, M, ◌>>=◌, ◌>>◌, pure, get, lift, set_object, set_action, >>=-eq-ok}
use cosidia.Kernel.Schedule.{schedule_end_handler}
use cosidia.Kernel.Schedule.Ids.{end_of, schedule_action_inv}
use cosidia.Kernel.Execution.{
  Behaviour, start_execution_base, end_execution_base, init_object_base, take_turn, start_now,
  init_now, invoke,
}

module _ {X : Type 0} where
  -- The event loop alone sets these fields.
  abbrev pub SameTime : System X → System X → Type 0
  SameTime s s' =
      (s'.current_action_time ≡ s.current_action_time)
      × (s'.is_finished ≡ s.is_finished)
      × (s'.on_core_thread ≡ s.on_core_thread)

  -- A successful run of `m` leaves them alone.
  pub record Keeps {A : Type 0} (m : M X A) : Type 0 where
    pub at : (s s' : System X) (a : A) → m s ≡ ok (a, s') → SameTime s s'

  pub Keeps-bind :
      {A B : Type 0} (m : M X A) (f : A → M X B)
      → Keeps m
      → ((a : A) → Keeps (f a))
      → Keeps (m >>= f)
  Keeps-bind m f km kf = record {
    at = λ s s' b e.
        let (a, t, e1, e2) = >>=-eq-ok m f s e in
        let u = km.at s t a e1 in let v = (kf a).at t s' b e2 in (v.0 ∙ u.0, v.1 ∙ u.1, v.2 ∙ u.2);
  }

  pub Keeps-then :
      {B : Type 0} (m : M X (Unit {0})) (k : M X B) → Keeps m → Keeps k → Keeps (m >> k)
  Keeps-then m k km kk = Keeps-bind m (λ _. k) km (λ _. kk)

  pub Keeps-pure : {A : Type 0} (a : A) → Keeps (pure a)
  Keeps-pure a = record { at = λ s s' b e. ground arith }

  pub Keeps-get : Keeps get
  Keeps-get = record { at = λ s s' b e. ground arith }

  pub Keeps-lift : {A : Type 0} (r : Result A) → Keeps (lift r)
  Keeps-lift r = record { at = λ s s' b e. ground arith }

  pub Keeps-set_object : (r : Ref) (o : BaseObject) → Keeps (set_object r o)
  Keeps-set_object r o = record { at = λ s s' b e. ground arith }

  pub Keeps-set_action : (r : Ref) (a : Action) → Keeps (set_action r a)
  Keeps-set_action r a = record { at = λ s s' b e. ground arith }

  pub Keeps-if :
      {A : Type 0} (c : Bool) (m n : M X A) → Keeps m → Keeps n → Keeps (if c then m else n)
  Keeps-if true m n km kn = km
  Keeps-if false m n km kn = kn

  pub ruleset keeps_rules = (
    Keeps-bind, Keeps-then, Keeps-pure, Keeps-get, Keeps-lift, Keeps-set_object, Keeps-set_action,
    Keeps-if,
  )

  schedule_end_handler-Keeps : (a : Ref) → Keeps (schedule_end_handler a)
  unfolding schedule_end_handler
  schedule_end_handler-Keeps a = record {
    at = λ s s' b e. ground (arith, schedule_action_inv (end_of a) s s');
  }

  -- The subclasses leave them alone.
  pub record KeepsTime (b : Behaviour X) : Type 0 where
    pub at_start : (o a : Ref) → Keeps (b.start_execution o a)
    pub at_end : (o a : Ref) → Keeps (b.end_execution o a)
    pub at_init : (o a : Ref) → Keeps (b.init_object o a)

  module _ (b : Behaviour X) (keeps : KeepsTime b) where
    start_now-Keeps : (o a : Ref) → Keeps (start_now b o a)
    unfolding start_now
    start_now-Keeps o a = search (keeps_rules, schedule_end_handler-Keeps, keeps.at_start) depth 20

    start_execution_base-Keeps : (o a : Ref) → Keeps (start_execution_base b o a)
    unfolding start_execution_base
    start_execution_base-Keeps o a = search (keeps_rules, start_now-Keeps) depth 20

    take_turn-Keeps : (o a : Ref) (ending : Ref → Ref) → Keeps (take_turn b o a ending)
    unfolding take_turn
    take_turn-Keeps o a ending =
        search (keeps_rules, schedule_end_handler-Keeps, keeps.at_start) depth 20

    end_execution_base-Keeps : (o a : Ref) → Keeps (end_execution_base b o a)
    unfolding end_execution_base
    end_execution_base-Keeps o a = search (keeps_rules, take_turn-Keeps, keeps.at_end) depth 20

    init_now-Keeps : (o a : Ref) → Keeps (init_now b o a)
    unfolding init_now
    init_now-Keeps o a = search (keeps_rules, take_turn-Keeps, keeps.at_init) depth 20

    init_object_base-Keeps : (o a : Ref) → Keeps (init_object_base b o a)
    unfolding init_object_base
    init_object_base-Keeps o a = search (keeps_rules, init_now-Keeps) depth 20

    pub invoke-Keeps : (k : HandlerKind) (a o : Ref) → Keeps (invoke b k a o)
    unfolding invoke
    invoke-Keeps start_handler a o = start_execution_base-Keeps o a
    invoke-Keeps end_handler a o = end_execution_base-Keeps o a
    invoke-Keeps init_handler a o = init_object_base-Keeps o a
