-- ===== src/Kernel/Schedule/Ids.antt =====
-- What scheduling changes, src/core/Core.cpp.
use cosidia.Prelude.{◌≤ℤ◌, ℕ, ◌+◌, true, ◌≡◌, ◌≢◌, refl, [], ◌∷◌, ◌++◌, arith}
use cosidia.Prelude.Result.{ok}
use cosidia.Std.Map.{update_at}
use cosidia.Core.Action.{
  Ref, Action, Handler, HandlerKind, end_handler, start_handler, get_time, get_end_time,
  set_action_id, duration_action,
}
use cosidia.Core.ActionList.{insert_handler}
use cosidia.Kernel.{System, update, update_self}
use cosidia.Kernel.Schedule.{schedule_action, time_of, schedule_end_handler}

time_of-set_action_id :
    (k : HandlerKind) (i : ℕ) (a : Action) → get_time k (set_action_id i a) ≡ get_time k a
unfolding get_time
time_of-set_action_id start_handler i a = refl
time_of-set_action_id end_handler i a = refl
time_of-set_action_id _ i a = refl

abbrev pub end_of : Ref → Handler
end_of a = record { kind = end_handler; action = a }

abbrev pub start_of : Ref → Handler
start_of a = record { kind = start_handler; action = a }

module _ {X : Type 0} where
  -- The state after a handler is scheduled.
  abbrev pub scheduled : Handler → System X → System X
  scheduled h s = record s {
    core = record s.core {
      current_action_id = s.current_action_id + 1;
      handlers = update_at (time_of s h) [] (λ hs. hs ++ h ∷ []) s.handlers;
    };
    actions =
        update s.actions h.action (set_action_id (s.current_action_id + 1) (s.actions h.action));
  }

  -- On the core thread a handler that is due no earlier than the current time is scheduled: its
  -- action gets the id after the last one that was given, whatever id it had, and the handler goes
  -- behind those of its time. Nothing else changes.
  pub schedule_action-scheduled :
      (h : Handler) (s : System X)
      → s.on_core_thread ≡ true
      → s.current_action_time ≤ℤ time_of s h
      → schedule_action h s ≡ ok (tt, scheduled h s)
  unfolding schedule_action insert_handler
  schedule_action-scheduled h s on late = ground (
    arith,
    update_self s.actions h.action (set_action_id (s.current_action_id + 1) (s.actions h.action)),
    time_of-set_action_id h.kind (s.current_action_id + 1) (s.actions h.action),
  )

  -- Where it does not throw, this is what scheduling does.
  pub schedule_action_inv :
      (h : Handler) (s s' : System X) → schedule_action h s ≡ ok (tt, s') → s' ≡ scheduled h s
  unfolding schedule_action insert_handler
  schedule_action_inv h s s' e = ground (
    arith,
    update_self s.actions h.action (set_action_id (s.current_action_id + 1) (s.actions h.action)),
    time_of-set_action_id h.kind (s.current_action_id + 1) (s.actions h.action),
  )

  pub schedule_end_handler_inv :
      (a : Ref) (s s' : System X)
      → (s.actions a).action_class ≡ duration_action
      → schedule_end_handler a s ≡ ok (tt, s')
      → s' ≡ scheduled (end_of a) s
  unfolding schedule_end_handler
  schedule_end_handler_inv a s s' d e = ground (arith, schedule_action_inv (end_of a) s s')

  pub schedule_end_handler-eq :
      (a : Ref) (s : System X)
      → (s.actions a).action_class ≡ duration_action
      → (s.actions a).action_id ≢ 0
      → s.on_core_thread ≡ true
      → s.current_action_time ≤ℤ get_end_time (s.actions a)
      → schedule_end_handler a s ≡ ok (tt, scheduled (end_of a) s)
  unfolding schedule_end_handler get_time
  schedule_end_handler-eq a s d n on late = ground (arith, schedule_action-scheduled (end_of a) s)
