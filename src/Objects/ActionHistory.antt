-- ===== src/Objects/ActionHistory.antt =====
-- src/objects/ActionHistory.hpp and src/objects/ActionHistory.cpp: what is noted of an object's
-- actions. The buffer is boost::circular_buffer's, and nothing but the printing reads it: a history is
-- the calls of push_front on it, the latest first, and the capacity that it was constructed with.
use cosidia.Prelude.{ℕ, String, List, [], ◌∷◌}
use cosidia.Core.Action.{Ref}

pub record ActionHistory : Type 0 where
  pub capacity : ℕ
  pub pushed : List (Ref × String)

abbrev pub new_history : ℕ → ActionHistory
new_history size = record { capacity = size; pushed = [] }

push_front : Ref × String → ActionHistory → ActionHistory
push_front x h = record h { pushed = x ∷ h.pushed }

unfoldable pub add_started_action : Ref → ActionHistory → ActionHistory
unfolding push_front
add_started_action a = push_front (a, "started")

unfoldable pub add_ended_action : Ref → ActionHistory → ActionHistory
unfolding push_front
add_ended_action a = push_front (a, "ended")

unfoldable pub add_delayed_action : Ref → ActionHistory → ActionHistory
unfolding push_front
add_delayed_action a = push_front (a, "delayed")

unfoldable pub add_dequeued_action : Ref → ActionHistory → ActionHistory
unfolding push_front
add_dequeued_action a = push_front (a, "dequeued")

unfoldable pub add_init_action : Ref → ActionHistory → ActionHistory
unfolding push_front
add_init_action a = push_front (a, "init")
