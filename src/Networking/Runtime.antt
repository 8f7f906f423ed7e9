-- ===== src/Networking/Runtime.antt =====
-- src/networking/Runtime.cpp: the clock of a router's network stack, in microseconds of ITS time,
-- which follows the simulated time in nanoseconds. vanetza::ManualRuntime is the parameter
-- `manual`: `R` is its state with what its callbacks reach, and `init` its constructor.
pub mod Follows
use cosidia.Prelude.{ℤ, pos, ◌+ℤ◌, ◌-ℤ◌, ◌*ℤ◌, leb_ℤ, Option, List, [], ◌∷◌}
use cosidia.Prelude.Result.{Result, ok, ◌>>=◌, ◌>>◌, enforce}
use cosidia.Core.Clock.{TimePoint, Duration, div_trunc}
use cosidia.Core.UtcTime.{get_utc_start_time}

-- vanetza::Clock::time_point
abbrev pub ItsTime : Type 0
ItsTime = ℤ

-- A trigger sets the clock and runs the callbacks that are due, any of which may throw.
pub record ManualRuntime (R : Type 0) : Type 0 where
  pub init : ItsTime → R
  pub now : R → ItsTime
  pub next : R → ItsTime
  pub trigger : ItsTime → R → Result R

-- The seconds of utcItsDiff in nanoseconds.
abbrev pub utc_its_diff : Duration
utc_its_diff = pos 1_072_915_200_000_000_000

unfoldable pub convert : Option TimePoint → TimePoint → Result ItsTime
convert utc_start sim = do
  start ← get_utc_start_time utc_start
  ok (div_trunc (start +ℤ sim -ℤ utc_its_diff) 1_000)

pub record Runtime (R : Type 0) : Type 0 where
  pub base : R
  pub sim_start_time : TimePoint
  pub its_start_time : ItsTime
  pub last_trigger : ItsTime

module _ {R : Type 0} (manual : ManualRuntime R) where
  -- The constructor; mLastTrigger is the clock's epoch.
  unfoldable pub make_runtime : Option TimePoint → TimePoint → Result (Runtime R)
  make_runtime utc_start start = do
    its ← convert utc_start start
    ok (record {
      base = manual.init its;
      sim_start_time = start;
      its_start_time = manual.now (manual.init its);
      last_trigger = pos 0;
    })

  unfoldable pub get_next_start : Runtime R → TimePoint
  get_next_start r = r.sim_start_time +ℤ (manual.next r.base -ℤ r.its_start_time) *ℤ pos 1_000

  unfoldable pub get_duration_now_to_next : Runtime R → Duration
  get_duration_now_to_next r = (manual.next r.base -ℤ manual.now r.base) *ℤ pos 1_000

  -- `trigger` of an ITS time point.
  unfoldable pub trigger_its : ItsTime → Runtime R → Result (Runtime R)
  trigger_its tp r = do
    enforce (leb_ℤ r.last_trigger tp) "trigger can only advance forward in time"
    b ← manual.trigger tp r.base
    ok (record r { base = b; last_trigger = tp })

  abbrev pub its_advance_to : TimePoint → Runtime R → ItsTime
  its_advance_to tp r = r.its_start_time +ℤ div_trunc (tp -ℤ r.sim_start_time) 1_000

  -- `trigger` of a simulated time point, with its `invariant`.
  unfoldable pub trigger : TimePoint → Runtime R → Result (Runtime R)
  unfolding trigger_its
  trigger tp r = do
    enforce (leb_ℤ r.last_trigger (its_advance_to tp r)) "trigger can only advance forward in time"
    trigger_its (its_advance_to tp r) r

  unfoldable pub trigger_all : List TimePoint → Runtime R → Result (Runtime R)
  trigger_all [] r = ok r
  trigger_all (tp ∷ tps) r = trigger tp r >>= trigger_all tps
