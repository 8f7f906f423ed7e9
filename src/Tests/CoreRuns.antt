-- ===== src/Tests/CoreRuns.antt =====
-- Runs of src/core and src/utils.
use cosidia.Prelude.{
  pos, negsuc, ◌-ℤ◌, ◌≡◌, ◌≢◌, ◌↔◌, true, some, List, [], ◌∷◌, All, String, arith,
}
use cosidia.Prelude.Result.{ok}
use cosidia.Std.Map.{find}
use cosidia.Core.Clock.{TimePoint}
use cosidia.Core.Clock.Advance.{wait_all}
use cosidia.Core.Clock.Advance
use cosidia.Core.StateMachine
use cosidia.Core.StateMachine.{calls, run_call, finish_call, IsLifeCycle, waiting, failure}
use cosidia.Core.ActionList.{
  HandlerMap, pop_next_handlers, get_next_handler_list, get_next_time_point,
}
use cosidia.Core.ActionList.Bounds
use cosidia.Core.ActionList.Bounds.{IsValid, After}

-- Handlers that are their names and times.
abbrev Named : Type 0
Named = String × TimePoint

abbrev time_of : Named → TimePoint
time_of h = h.1

abbrev two_points : HandlerMap Named
two_points = (pos 3, ("a", pos 3) ∷ []) ∷ (pos 5, ("b", pos 5) ∷ ("c", pos 5) ∷ []) ∷ []

two_points-IsValid : IsValid two_points
two_points-IsValid = record { sorted = (omega arith, tt); filled = (λ e. cc, (λ e. cc, tt)) }

pop_next_handlers_example :
    (hs : List Named) × (rest : HandlerMap Named) × (pop_next_handlers true two_points
      ≡ ok (hs, rest))
    × (get_next_handler_list true two_points ≡ ok hs)
    × (hs ≢ [])
    × (find (get_next_time_point two_points) two_points ≡ some hs)
    × All (After (get_next_time_point two_points)) rest
    × IsValid rest
pop_next_handlers_example = Bounds.pop_next_handlers_lem two_points two_points-IsValid (λ e. cc)

wait_all-eq_example :
    wait_all (pos 4 ∷ pos 4 ∷ pos 9 ∷ []) (record { sim_time = negsuc 0 })
    ≡ ok (pos 9 -ℤ negsuc 0, record { sim_time = pos 9 })
wait_all-eq_example =
    Advance.wait_all-eq (pos 4 ∷ pos 4 ∷ pos 9 ∷ []) (record { sim_time = negsuc 0 })
      (omega arith, (omega arith, (omega arith, tt)))

calls_iff_example :
    (((calls (run_call ∷ run_call ∷ []) waiting).1 ≡ ok tt)
      ↔ IsLifeCycle (run_call ∷ run_call ∷ []))
    × ((calls (run_call ∷ run_call ∷ []) waiting).1 ≢ ok tt
        → (calls (run_call ∷ run_call ∷ []) waiting).0 ≡ failure)
calls_iff_example = StateMachine.calls_iff (run_call ∷ run_call ∷ [])
