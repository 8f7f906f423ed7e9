-- ===== src/Tests/KernelRuns.antt =====
-- Runs of src/core/Core.cpp and src/objects/BaseObject.cpp.
use cosidia.Prelude.{pos, ◌≤ℤ◌, ◌+ℤ◌, ◌-ℤ◌, ◌*ℤ◌, ◌≡◌, refl, [], ◌∷◌, ◌++◌, arith}
use cosidia.Prelude.Result.{Result, ok, err, runtime_error}
use cosidia.Std.Map.{update_at, find}
use cosidia.Core.Clock.{zero_time, at_second, invalid, get_duration_until, update_sim_time}
use cosidia.Core.Action.{get_end_time, get_time}
use cosidia.Core.ActionList.{insert_handler, pop_next_handlers, get_next_time_point}
use cosidia.Objects.ActionManager.{start_or_delay}
use cosidia.Objects.Object.{is_initialized}
use cosidia.Kernel.{System}
use cosidia.Kernel.Schedule.{schedule_action, schedule_end_handler}
use cosidia.Kernel.Schedule.Ids.{end_of}
use cosidia.Kernel.Execution.{start_execution_base, end_execution_base, init_object_base}
use cosidia.Kernel.Execution.Keeps.{KeepsTime, Keeps-pure}
use cosidia.Kernel.Execution.Mismatch
use cosidia.Kernel.Execution.Mismatch.{KeepsBookkeeping}
use cosidia.Kernel.Execution.Turns
use cosidia.Kernel.Execution.Turns.{CanTurn, noted_end}
use cosidia.Kernel.Loop
use cosidia.Kernel.Execution
use cosidia.Objects.Container
use cosidia.Kernel.Loop.{run, run_simulation_loop}
use cosidia.Kernel.Loop.Time
use cosidia.Tests.World.{idle, world, busy}

idle-KeepsBookkeeping : KeepsBookkeeping idle
idle-KeepsBookkeeping o a s s' e = ground arith

idle-KeepsTime : KeepsTime idle
idle-KeepsTime = record {
  at_start = λ o a. Keeps-pure tt;
  at_end = λ o a. Keeps-pure tt;
  at_init = λ o a. Keeps-pure tt;
}

abbrev drained : System (Unit {0})
drained = record world { core = record world.core { handlers = [] } }

zero-le-start : zero_time ≤ℤ pos 20
unfolding zero_time at_second ◌*ℤ◌
zero-le-start = omega arith

run_simulation_loop_empty_example :
    run_simulation_loop drained ≡ err (runtime_error "Core: wrong order of actions")
run_simulation_loop_empty_example = Time.run_simulation_loop_empty drained refl zero-le-start

-- The world after a run, or itself where the run throws.
abbrev after_run : Result (Unit {0} × System (Unit {0})) → System (Unit {0})
after_run (ok (_, s)) = s
after_run (err e) = world

abbrev started : System (Unit {0})
started = after_run (start_execution_base idle 7 1 world)

started-eq : start_execution_base idle 7 1 world ≡ ok (tt, started)
unfolding start_execution_base is_initialized start_or_delay schedule_end_handler schedule_action
    insert_handler get_time ◌+ℤ◌
started-eq = refl

end_after_start_throws_example :
    end_execution_base idle 7 1 started ≡ err (runtime_error "BaseObject: Action ends wrong action")
end_after_start_throws_example =
    Mismatch.end_after_start_throws idle idle-KeepsBookkeeping 7 1 world started started refl
      (omega arith) refl started-eq refl refl

abbrev once : System (Unit {0})
once = after_run (run idle 1 world)

once-eq : run idle 1 world ≡ ok (tt, once)
unfolding run Loop.execute_action_on_finished_timer pop_next_handlers get_time Loop.execute_handlers
    Loop.execute_handler Container.get_object_by_id_from_current_container Container.get_object find
    Execution.invoke is_initialized start_or_delay schedule_end_handler schedule_action
    insert_handler ◌+ℤ◌ ◌-ℤ◌ ◌*ℤ◌ run_simulation_loop get_next_time_point get_duration_until
    update_sim_time invalid at_second start_execution_base update_at
once-eq = refl

run_advances_example :
    (world.current_action_time ≤ℤ once.current_action_time) × (once.is_finished ≡ world.is_finished)
run_advances_example = Time.run_advances idle idle-KeepsTime 1 world once zero-le-start once-eq

busy-CanTurn : CanTurn idle 7 1 2 [] (noted_end idle 7 1 2 [] busy)
unfolding ◌+ℤ◌
busy-CanTurn = record {
  other = λ e. omega (arith, e);
  on_core = refl;
  queue = refl;
  late = omega arith;
  now = omega arith;
}

end_execution_base_reschedules_example :
    (t : System (Unit {0})) × (end_execution_base idle 7 1 busy ≡ idle.start_execution 7 2 t)
    × (t.handlers
        ≡ update_at (get_end_time (busy.actions 1)) [] (λ hs. hs ++ end_of 1 ∷ []) busy.handlers)
end_execution_base_reschedules_example =
    Turns.end_execution_base_reschedules idle 7 1 2 [] busy (noted_end idle 7 1 2 [] busy) refl refl
      busy-CanTurn refl (λ e. omega (arith, e))
