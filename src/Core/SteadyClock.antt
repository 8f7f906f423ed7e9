-- ===== src/Core/SteadyClock.antt =====
-- SteadyClock of src/core/SteadyClock.hpp and src/core/SteadyClock.cpp, which relates simulated to real
-- time. Real time is an integer of nanoseconds, and `now` is what std::chrono::steady_clock shows at
-- a call. `times_speed` is a duration times mSimSpeed, a float, and `by_speed` one divided by it, both
-- cast to whole nanoseconds. Durations that are computed and not used are left out.
pub mod Overshoot
use cosidia.Prelude.{ℤ, pos, ◌+ℤ◌, ◌-ℤ◌, leb_ℤ}
use cosidia.Prelude.Result.{Result, ok, ◌>>=◌, ◌>>◌, enforce}
use cosidia.Core.Clock.{TimePoint, Duration}

pub record SteadyClock : Type 0 where
  pub start_time : ℤ
  pub sim_time : TimePoint

-- The constructor, which reads the time after mSimTime is set.
abbrev pub new_clock : (now : ℤ) → SteadyClock
new_clock now = record { start_time = now; sim_time = pos 0 }

abbrev pub restart : (now : ℤ) → SteadyClock → SteadyClock
restart now c = record c { start_time = now }

unfoldable pub update_sim_time : TimePoint → SteadyClock → Result SteadyClock
update_sim_time new_time c = do
  enforce (leb_ℤ c.sim_time new_time) "clock updates can only advance forward in time"
  ok (record c { sim_time = new_time })

module _ (times_speed by_speed : Duration → Duration) where
  unfoldable pub get_sim_time_now : (now : ℤ) → SteadyClock → TimePoint
  get_sim_time_now now c = times_speed (now -ℤ c.start_time)

  unfoldable pub get_real_time_for_current_sim_time :
      (now : ℤ) → SteadyClock → Result (ℤ × SteadyClock)
  unfolding update_sim_time get_sim_time_now
  get_real_time_for_current_sim_time now c = do
    c' ← update_sim_time (get_sim_time_now now c) c
    ok (c'.start_time +ℤ by_speed c'.sim_time, c')

  unfoldable pub get_duration_until :
      (now : ℤ) → TimePoint → SteadyClock → Result (Duration × SteadyClock)
  unfolding update_sim_time get_sim_time_now
  get_duration_until now until c = do
    c' ← update_sim_time (get_sim_time_now now c) c
    ok (times_speed (until -ℤ c'.sim_time), c')

  -- The first of the two calls only updates the clock.
  unfoldable pub get_time_pointfor_sim_time :
      (now later : ℤ) → TimePoint → SteadyClock → Result (ℤ × SteadyClock)
  unfolding get_duration_until
  get_time_pointfor_sim_time now later until c = do
    (u, c') ← get_duration_until now until c
    (d, c'') ← get_duration_until later until c'
    ok (c''.start_time +ℤ d, c'')
