-- ===== src/Kernel/Schedule/Late.antt =====
-- Actions that are scheduled when their start time has passed, src/core/Core.cpp.
use cosidia.Prelude.{◌<ℤ◌, ◌≡◌, arith, true, List, ◌∷◌}
use cosidia.Prelude.Result.{err, runtime_error}
use cosidia.Core.Clock.{TimePoint}
use cosidia.Core.Action.{Ref, duration_action, get_time}
use cosidia.Core.ActionList.{insert_handler}
use cosidia.Core.StateMachine.{waiting, set_running}
use cosidia.Kernel.{System}
use cosidia.Kernel.Schedule.{
  schedule_all, schedule_start_handler, schedule_start_as, schedule_action, get_next_action_id,
}

abbrev pub at_time : {X : Type 0} → TimePoint → System X → System X
at_time t s = record s { core = record s.core { current_action_time = t } }

module _ {X : Type 0} where
  -- A new action whose start time has passed cannot be scheduled.
  pub schedule_all-late :
      (a : Ref) (rest : List Ref) (s : System X)
      → s.on_core_thread ≡ true
      → (s.actions a).action_class ≡ duration_action
      → (s.actions a).action_id ≡ 0
      → (s.actions a).state ≡ waiting
      → (s.actions a).start_time <ℤ s.current_action_time
      → schedule_all (a ∷ rest) s ≡ err (runtime_error "ActionList: Wrong order of actions")
  unfolding schedule_all schedule_start_handler schedule_start_as schedule_action get_next_action_id
      insert_handler set_running get_time
  schedule_all-late a rest s on d i w late = ground (arith, on, d, i, w, late)
