-- ===== src/Kernel/Loop.antt =====
-- The event loop of src/core/Core.cpp: runSimulationLoop, executeActionOnFinishedTimer and
-- finishSimulation. The expiry of the timer is one call of `execute_action_on_finished_timer`.
pub mod Time
pub mod Removed
use cosidia.Prelude.{
  ℤ, ℕ, zero, suc, leb_ℤ, eqb_ℤ, ◌==◌, Bool, true, false, not, Option, none, some, List, [], ◌∷◌,
  String, if◌then◌else◌,
}
use cosidia.Prelude.Result.{Result, ok, err, enforce, deref}
use cosidia.Core.Clock.{TimePoint, invalid, get_duration_until}
use cosidia.Core.Action.{Ref, Action, Handler, valid}
use cosidia.Core.ActionList.{get_next_time_point, pop_next_handlers}
use cosidia.Objects.Container.{get_object_by_id_from_current_container}
use cosidia.Kernel.{System, M, pure, ◌>>=◌, ◌>>◌, get, lift, set_core}
use cosidia.Kernel.Schedule.{time_of}
use cosidia.Kernel.Execution.{Behaviour, invoke}

module _ {X : Type 0} where
  -- Output, the stop of the I/O service and the joining of threads are left out.
  unfoldable pub finish_simulation : M X (Unit {0})
  finish_simulation = do s ← get; set_core (record s.core { is_finished = true })

  wait_or_finish : Bool → M X (Unit {0})
  unfolding finish_simulation
  wait_or_finish true = finish_simulation
  wait_or_finish false = do
    s ← get
    (wait, clock) ← lift (get_duration_until s.current_action_time s.clock)
    set_core (record s.core { clock = clock })

  unfoldable pub run_simulation_loop : M X (Unit {0})
  unfolding wait_or_finish
  run_simulation_loop = do
    s ← get
    lift (
        enforce (leb_ℤ s.current_action_time (get_next_time_point s.handlers))
          "Core: wrong order of actions")
    set_core (record s.core { current_action_time = get_next_time_point s.handlers })
    s ← get
    wait_or_finish (eqb_ℤ s.current_action_time invalid)

  -- mActions.popNextHandlers
  pop_handlers : M X (List Handler)
  pop_handlers = do
    s ← get
    (handlers, rest) ← lift (pop_next_handlers s.on_core_thread s.handlers)
    set_core (record s.core { handlers = rest })
    pure handlers

  module _ (b : Behaviour X) where
    invoke_if : Option Ref → Handler → M X (Unit {0})
    invoke_if none h = pure tt
    invoke_if (some o) h = invoke b h.kind h.action o

    -- The body of the loop over the handlers of one time point.
    unfoldable pub execute_handler : Handler → M X (Unit {0})
    unfolding invoke_if
    execute_handler h = do
      s ← get
      lift (
          enforce (not ((s.actions h.action).action_id == 0))
            "Core: tried to execute Action without Id")
      let affected = (s.actions h.action).affected
      lift (enforce (valid affected) "Core: tried to execute object with invalid id")
      obj ← lift (get_object_by_id_from_current_container affected s.object_list)
      invoke_if obj h

    unfoldable pub execute_handlers : List Handler → M X (Unit {0})
    execute_handlers [] = pure tt
    execute_handlers (h ∷ hs) = do execute_handler h; execute_handlers hs

    abbrev first_of : List Handler → Option Handler
    first_of [] = none
    first_of (h ∷ hs) = some h

    unfoldable pub execute_action_on_finished_timer : M X (Unit {0})
    unfolding pop_handlers
    execute_action_on_finished_timer = do
      handlers ← pop_handlers
      first ← lift (deref (first_of handlers))
      s ← get
      lift (
          enforce (eqb_ℤ s.current_action_time (time_of s first))
            "Core: currentAction time corresponds not to fetched action time")
      execute_handlers handlers
      run_simulation_loop

    -- The timer expires `n` times.
    unfoldable pub run : ℕ → M X (Unit {0})
    run zero = pure tt
    run (suc n) = do execute_action_on_finished_timer; run n
