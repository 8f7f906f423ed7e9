-- ===== src/Core/Clock/Advance.antt =====
-- Waiting with the debug clock, src/core/DebugClock.cpp.
use cosidia.Prelude.{ℤ, pos, ◌+ℤ◌, ◌-ℤ◌, ◌≤ℤ◌, ◌<ℤ◌, int_laws, ◌≡◌, arith, List, [], ◌∷◌}
use cosidia.Prelude.Result.{Result, ok, err, ◌>>=◌, runtime_error}
use cosidia.Core.Clock.{TimePoint, Duration, DebugClock, get_duration_until}

-- The waits of a run that passes these time points, added up.
pub wait_all : List TimePoint → DebugClock → Result (Duration × DebugClock)
wait_all [] c = ok (pos 0, c)
wait_all (t ∷ ts) c = do
  (d, c') ← get_duration_until t c
  (ds, c'') ← wait_all ts c'
  ok (d +ℤ ds, c'')

-- The time points do not fall, from the clock's own time on.
abbrev pub Rises : TimePoint → List TimePoint → Type 0
Rises now [] = Unit {0}
Rises now (t ∷ ts) = (now ≤ℤ t) × Rises t ts

abbrev pub last_of : TimePoint → List TimePoint → TimePoint
last_of now [] = now
last_of now (t ∷ ts) = last_of t ts

sub_self : (a : ℤ) → a -ℤ a ≡ pos 0
sub_self a = omega int_laws

distances : (a b c : ℤ) → (b -ℤ a) +ℤ (c -ℤ b) ≡ c -ℤ a
distances a b c = omega int_laws

-- The debug clock neither loses nor gains time: along rising time points no update is refused, the
-- waits add up to the whole distance, and the clock stands at the last point.
pub wait_all-eq :
    (ts : List TimePoint) (c : DebugClock)
    → Rises c.sim_time ts
    → wait_all ts c
      ≡ ok (last_of c.sim_time ts -ℤ c.sim_time, record c { sim_time = last_of c.sim_time ts })
unfolding wait_all get_duration_until
wait_all-eq [] c h = rw (sub_self c.sim_time)
wait_all-eq (t ∷ ts) c h =
    ground
      (arith, wait_all-eq ts (record c { sim_time = t }) h.1, distances c.sim_time t (last_of t ts))

-- A time point in the past is refused.
pub wait_all_back :
    (t : TimePoint) (ts : List TimePoint) (c : DebugClock)
    → t <ℤ c.sim_time
    → wait_all (t ∷ ts) c ≡ err (runtime_error "clock updates can only advance forward in time")
unfolding wait_all get_duration_until
wait_all_back t ts c h = ground arith
