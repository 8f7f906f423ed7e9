-- ===== src/Core/Clock.antt =====
-- src/core/SteadyClock.hpp (SimClock) and src/core/DebugClock.cpp. Time points and durations are
-- nanoseconds; an int64_t is an integer here, and no sum is taken modulo 2^64, since a signed
-- overflow is undefined in C++.
pub mod Advance
pub mod Units
use cosidia.Prelude.{
  ℤ, pos, negsuc, ◌+ℤ◌, ◌-ℤ◌, ◌*ℤ◌, leb_ℤ, ℕ, suc, ◌/◌, ◌≡◌, refl, arith, if◌then◌else◌,
}
use cosidia.Prelude.Result.{Result, ok, ◌>>=◌, ◌>>◌, enforce}

-- SimClock::time_point and SimClock::duration
abbrev pub TimePoint : Type 0
TimePoint = ℤ

abbrev pub Duration : Type 0
Duration = ℤ

unfoldable pub at_second : ℤ → TimePoint
at_second sec = sec *ℤ pos 1_000_000_000

unfoldable pub at_millisecond : ℤ → TimePoint
at_millisecond msec = msec *ℤ pos 1_000_000

unfoldable pub at_microsecond : ℤ → TimePoint
at_microsecond usec = usec *ℤ pos 1_000

unfoldable pub at_nanosecond : ℤ → TimePoint
at_nanosecond nsec = nsec

unfoldable pub invalid : TimePoint
unfolding at_second ◌*ℤ◌
invalid = at_second (negsuc 0)

unfoldable pub zero_time : TimePoint
unfolding at_second ◌*ℤ◌
zero_time = at_second (pos 0)

-- Division of C++, which rounds towards zero, by a positive number.
unfoldable pub div_trunc : ℤ → ℕ → ℤ
unfolding ◌-ℤ◌
div_trunc (pos n) d = pos (n / d)
div_trunc (negsuc n) d = pos 0 -ℤ pos (suc n / d)

-- The factor of nanoseconds to milliseconds is 1 / 1000000.
unfoldable pub get_milliseconds : TimePoint → ℤ
unfolding div_trunc
get_milliseconds t = div_trunc (t *ℤ pos 1) 1_000_000

-- The clock of a run with no real time: it jumps to the time point that is waited for.
pub record DebugClock : Type 0 where
  pub sim_time : TimePoint

unfoldable pub get_sim_time_now : DebugClock → TimePoint
get_sim_time_now c = c.sim_time

unfoldable pub update_sim_time : TimePoint → DebugClock → Result DebugClock
update_sim_time new_time c = do
  enforce (leb_ℤ c.sim_time new_time) "clock updates can only advance forward in time"
  ok (record c { sim_time = new_time })

unfoldable pub get_duration_until : TimePoint → DebugClock → Result (Duration × DebugClock)
unfolding update_sim_time
get_duration_until until c = do
  let current_time = c.sim_time
  c' ← update_sim_time until c
  ok (until -ℤ current_time, c')
