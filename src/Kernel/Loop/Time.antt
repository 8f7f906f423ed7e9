-- ===== src/Kernel/Loop/Time.antt =====
-- Simulated time in the event loop of src/core/Core.cpp.
use cosidia.Prelude.{◌≤ℤ◌, ℕ, zero, suc, ◌≡◌, List, [], ◌∷◌, arith, Option, none, some}
use cosidia.Prelude.Result.{ok, err, runtime_error}
use cosidia.Core.Clock.{zero_time}
use cosidia.Core.Clock.Units.{invalid-lt-zero_time}
use cosidia.Core.Action.{Ref, Handler}
use cosidia.Core.ActionList.{get_next_time_point}
use cosidia.Kernel.{System, M, ◌>>=◌, ◌>>◌, >>=-eq-ok}
use cosidia.Kernel.Execution.{Behaviour}
use cosidia.Kernel.Execution.Keeps.{Keeps, KeepsTime, keeps_rules, invoke-Keeps}
use cosidia.Kernel.Loop.{
  run_simulation_loop, execute_action_on_finished_timer, execute_handler, execute_handlers, run,
  invoke_if, pop_handlers,
}

module _ {X : Type 0} where
  -- At a current time that is not before the start, with no handler left, the loop throws instead
  -- of finishing the simulation: the mark for an empty list lies before the current time, and the
  -- order of times is checked first.
  pub run_simulation_loop_empty :
      (s : System X)
      → s.handlers ≡ []
      → zero_time ≤ℤ s.current_action_time
      → run_simulation_loop s ≡ err (runtime_error "Core: wrong order of actions")
  unfolding run_simulation_loop get_next_time_point
  run_simulation_loop_empty s e h = ground (arith, invalid-lt-zero_time)

  -- The loop goes on only to a time that is not earlier, and does not finish.
  run_simulation_loop_advances :
      (s s' : System X)
      → zero_time ≤ℤ s.current_action_time
      → run_simulation_loop s ≡ ok (tt, s')
      → (s.current_action_time ≤ℤ s'.current_action_time) × (s'.is_finished ≡ s.is_finished)
  unfolding run_simulation_loop
  run_simulation_loop_advances s s' h e = ground (arith, invalid-lt-zero_time)

  pop_handlers-Keeps : Keeps (pop_handlers {X = X})
  unfolding pop_handlers
  pop_handlers-Keeps = record { at = λ s s' a e. ground arith }

  -- Time that is not before the start goes forward, and the end of the simulation is not marked.
  record Advances {A : Type 0} (m : M X A) : Type 0 where
    at :
        (s s' : System X) (a : A)
        → zero_time ≤ℤ s.current_action_time
        → m s ≡ ok (a, s')
        → (s.current_action_time ≤ℤ s'.current_action_time) × (s'.is_finished ≡ s.is_finished)

  Keeps-Advances : {A : Type 0} (m : M X A) → Keeps m → Advances m
  Keeps-Advances m k = record { at = λ s s' a h e. ground (arith, k.at s s' a e) }

  Advances-bind :
      {A B : Type 0} (m : M X A) (f : A → M X B)
      → Advances m
      → ((a : A) → Advances (f a))
      → Advances (m >>= f)
  Advances-bind m f km kf = record {
    at = λ s s' b h e.
        let (a, t, e1, e2) = >>=-eq-ok m f s e in
        let u = km.at s t a h e1 in let v = (kf a).at t s' b (omega (arith, u)) e2 in ground arith;
  }

  Advances-then :
      {B : Type 0} (m : M X (Unit {0})) (k : M X B) → Advances m → Advances k → Advances (m >> k)
  Advances-then m k km kk = Advances-bind m (λ _. k) km (λ _. kk)

  run_simulation_loop-Advances : Advances (run_simulation_loop {X = X})
  run_simulation_loop-Advances = record { at = λ s s' a h e. run_simulation_loop_advances s s' h e }

  module _ (b : Behaviour X) (keeps : KeepsTime b) where
    invoke_if-Keeps : (o : Option Ref) (h : Handler) → Keeps (invoke_if b o h)
    unfolding invoke_if
    invoke_if-Keeps none h = search keeps_rules
    invoke_if-Keeps (some o) h = invoke-Keeps b keeps h.kind h.action o

    execute_handler-Keeps : (h : Handler) → Keeps (execute_handler b h)
    unfolding execute_handler
    execute_handler-Keeps h = search (keeps_rules, invoke_if-Keeps) depth 20

    execute_handlers-Keeps : (hs : List Handler) → Keeps (execute_handlers b hs)
    unfolding execute_handlers
    execute_handlers-Keeps [] = search keeps_rules
    execute_handlers-Keeps (h ∷ hs) =
        search (keeps_rules, execute_handler-Keeps h, execute_handlers-Keeps hs)

    execute_action_on_finished_timer-Advances : Advances (execute_action_on_finished_timer b)
    unfolding execute_action_on_finished_timer
    execute_action_on_finished_timer-Advances =
        search
          (
            Advances-bind, Advances-then, run_simulation_loop-Advances, Keeps-Advances, keeps_rules,
            pop_handlers-Keeps, execute_handlers-Keeps,
          )
          depth 20

    run-Advances : (n : ℕ) → Advances (run b n)
    unfolding run
    run-Advances zero = search (Keeps-Advances, keeps_rules)
    run-Advances (suc n) =
        Advances-then _ _ execute_action_on_finished_timer-Advances (run-Advances n)

    -- If the objects' own methods leave the current time, the mark of the end and the thread alone,
    -- then, however often the timer expires from a current time that is not before the start, where
    -- no call throws the current time never goes back, and the simulation is not marked as
    -- finished.
    pub run_advances :
        (n : ℕ) (s s' : System X)
        → zero_time ≤ℤ s.current_action_time
        → run b n s ≡ ok (tt, s')
        → (s.current_action_time ≤ℤ s'.current_action_time) × (s'.is_finished ≡ s.is_finished)
    run_advances n s s' h e = (run-Advances n).at s s' tt h e
