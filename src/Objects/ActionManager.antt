-- ===== src/Objects/ActionManager.antt =====
-- src/objects/ObjectActionManager.hpp and src/objects/ObjectActionManager.cpp. One object runs one
-- action at a time; the others queue. The log line for a delayed action, which a build with
-- assertions writes, reads the running action, and is undefined where none is running.
pub mod Fifo
use cosidia.Prelude.{Bool, true, false, Option, none, some, List, [], ◌∷◌, ◌++◌}
use cosidia.Prelude.Result.{Result, ok, err, runtime_error, ◌>>=◌, deref, assertion}
use cosidia.Core.Action.{Ref}

pub record ActionManager : Type 0 where
  pub active_action : Option Ref
  pub delayed_queue : List Ref

abbrev pub new_manager : ActionManager
new_manager = record { active_action = none; delayed_queue = [] }

unfoldable pub is_action_running : ActionManager → Bool
is_action_running m = elim m.active_action [ none ↦ false | some _ ↦ true ]

unfoldable pub is_action_available : ActionManager → Bool
is_action_available m = elim m.delayed_queue [ [] ↦ false | _ ∷ _ ↦ true ]

delay : Ref → ActionManager → Result (ActionManager × Bool)
delay a m = do
  -- the log line
  running ← deref m.active_action
  ok (record m { delayed_queue = m.delayed_queue ++ a ∷ [] }, true)

start_or_delay_at : Option Ref → List Ref → Ref → ActionManager → Result (ActionManager × Bool)
unfolding delay
start_or_delay_at none [] a m = ok (record m { active_action = some a }, false)
start_or_delay_at none (q ∷ qs) a m = delay a m
start_or_delay_at (some r) qs a m = delay a m

-- `true` means that the action is delayed.
unfoldable pub start_or_delay : Ref → ActionManager → Result (ActionManager × Bool)
unfolding start_or_delay_at
start_or_delay a m = start_or_delay_at m.active_action m.delayed_queue a m

unfoldable pub end_and_check_available : ActionManager → ActionManager × Bool
unfolding is_action_available
end_and_check_available m = (record m { active_action = none }, is_action_available m)

unfoldable pub fetch_next_action : ActionManager → Result Ref
fetch_next_action m = elim m.delayed_queue [ [] ↦ err assertion | a ∷ _ ↦ ok a ]

unfoldable pub activate_next_available_action : ActionManager → Result (ActionManager × Ref)
activate_next_available_action m = elim m.delayed_queue [
  | [] ↦ err assertion
  | a ∷ rest ↦ elim m.active_action [
    | some _ ↦ err (runtime_error "Tried to activate action, but other action already running")
    | none ↦ ok (record m { active_action = some a; delayed_queue = rest }, a)
  ]
]

unfoldable pub end_manually : ActionManager → ActionManager
end_manually m = record m { active_action = none }
