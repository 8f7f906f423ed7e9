-- ===== src/Core/ActionList.antt =====
-- src/core/ActionList.hpp and src/core/ActionList.cpp: the handlers by their time, and those of one
-- time in the order of their insertion. The shared reference to the current time and the test of
-- the calling thread are arguments; `time_of` is the handler's virtual getTime().
pub mod Bounds
pub mod Fifo
pub mod Drain
use cosidia.Prelude.{ℤ, leb_ℤ, Bool, true, false, not, List, [], ◌∷◌, ◌++◌, if◌then◌else◌}
use cosidia.Prelude.Result.{Result, ok, err, ◌>>=◌, ◌>>◌, enforce}
use cosidia.Std.Map.{update_at}
use cosidia.Core.Clock.{TimePoint, invalid}

-- std::map<SimClock::time_point, std::list<HandlerP>>
abbrev pub HandlerMap : Type 0 → Type 0
HandlerMap H = List (TimePoint × List H)

module _ {H : Type 0} where
  unfoldable pub get_next_time_point : HandlerMap H → TimePoint
  get_next_time_point [] = invalid
  get_next_time_point ((t, hs) ∷ m) = t

  unfoldable pub insert_handler :
      (on_core_thread : Bool) (current : TimePoint) (time_of : H → TimePoint)
      → H
      → HandlerMap H
      → Result (HandlerMap H)
  insert_handler on_core_thread current time_of h m = do
    enforce on_core_thread "Inserted Action from wrong thread!"
    enforce (leb_ℤ current (time_of h)) "ActionList: Wrong order of actions"
    ok (update_at (time_of h) [] (λ hs. hs ++ h ∷ []) m)

  abbrev pub is_empty : List H → Bool
  is_empty [] = true
  is_empty (h ∷ hs) = false

  pop_first : HandlerMap H → Result (List H × HandlerMap H)
  pop_first [] = ok ([], [])
  pop_first ((t, hs) ∷ m) = do
    enforce (not (is_empty hs)) "ActionList: Time point with empty list"
    ok (hs, m)

  unfoldable pub pop_next_handlers :
      (on_core_thread : Bool) → HandlerMap H → Result (List H × HandlerMap H)
  unfolding pop_first
  pop_next_handlers on_core_thread m = do
    enforce on_core_thread "Pop Action from wrong thread!"
    pop_first m

  first_handlers : HandlerMap H → Result (List H)
  first_handlers [] = ok []
  first_handlers ((t, hs) ∷ m) = do
    enforce (not (is_empty hs)) "ActionList: Time point with empty list"
    ok hs

  unfoldable pub get_next_handler_list : (on_core_thread : Bool) → HandlerMap H → Result (List H)
  unfolding first_handlers
  get_next_handler_list on_core_thread m = do
    enforce on_core_thread "Get Action from wrong thread!"
    first_handlers m

  unfoldable pub remove_handler : H → TimePoint → HandlerMap H → Result Bool
  remove_handler h t m = do
    enforce false "ActionList: removing of Handlers is not allowed, yet"
    ok false
