-- ===== src/Tests/RouterRuns.antt =====
-- Runs of src/networking on a stack that sends a beacon every millisecond, and nothing else.
use cosidia.Prelude.{
  ℤ, pos, negsuc, ◌+ℤ◌, ◌-ℤ◌, ◌*ℤ◌, ◌≤ℤ◌, ◌<ℤ◌, leb_ℤ, ℕ, ◌<◌, ◌≤◌, ◌≡◌, refl, arith, Bool, true,
  false, some, none, [], ◌∷◌, length, if◌then◌else◌, String,
}
use cosidia.Prelude.Result.{ok}
use cosidia.Core.Clock.{div_trunc, at_second, zero_time}
use cosidia.Core.UtcTime.{get_utc_start_time}
use cosidia.Utils.ReadOnly.{unset}
use cosidia.Kernel.{System}
use cosidia.Networking.Runtime.{
  ManualRuntime, Runtime, ItsTime, get_next_start, trigger, trigger_its, trigger_all, make_runtime,
  convert, utc_its_diff,
}
use cosidia.Networking.Runtime.Follows
use cosidia.Networking.Runtime.Follows.{Lags}
use cosidia.Networking.AccessInterface.{new_interface}
use cosidia.Networking.Tracker.{new_tracker, next_start_time}
use cosidia.Networking.Dcc.{DccRequest}
use cosidia.Networking.Router.{Vanetza, Router, RouterUpdateData, Base}
use cosidia.Networking.Router.Stack.{manual, drop_outdated}
use cosidia.Networking.Router.Tasks.{schedule_next_update, new_data}
use cosidia.Networking.Router.Tasks.NextUpdate
use cosidia.Networking.Router.Tasks.NextUpdate.{Scheduled}
use cosidia.Networking.Router.Outdated
use cosidia.Networking.Router.Outdated.{Idle, Interface}
use cosidia.Networking.Router.Behaviour.Superseded
use cosidia.Application.Cam.{Numbers, Validate}
use cosidia.Radio.Transmission.{new_transmission}
use cosidia.Tests.World.{world_of, tick}

-- The time now, and the time of the next beacon.
abbrev Beacons : Type 0
Beacons = ItsTime × ItsTime

abbrev beacon_clock : ManualRuntime Beacons
beacon_clock = record {
  init = λ t. (t, t);
  now = λ b. b.0;
  next = λ b. b.1;
  trigger = λ t b. ok (t, b.1 +ℤ pos 1_000);
}

-- The simulation starts at the epoch of ITS time.
abbrev fresh : Runtime Beacons
fresh = record {
  base = (pos 2_000, pos 2_000);
  sim_start_time = pos 2_000_000;
  its_start_time = pos 2_000;
  last_trigger = pos 0;
}

fresh-eq : make_runtime beacon_clock (some utc_its_diff) (pos 2_000_000) ≡ ok fresh
unfolding make_runtime convert get_utc_start_time div_trunc ◌+ℤ◌ ◌-ℤ◌
fresh-eq = refl

clock_keeps_up_example :
    (r' : Runtime Beacons) × (trigger_all beacon_clock (pos 2_000_500 ∷ pos 2_001_700 ∷ []) fresh
      ≡ ok r')
    × Lags (r'.base.0 -ℤ pos 2_000) (pos 2_001_700 -ℤ pos 2_000_000)
clock_keeps_up_example =
    Follows.clock_keeps_up beacon_clock (λ t b. ((t, b.1 +ℤ pos 1_000), refl, refl))
      (some utc_its_diff) (pos 2_000_000) (pos 2_000_500) (pos 2_001_700 ∷ []) fresh fresh-eq
      (omega arith) (omega arith, (omega arith, tt))

abbrev beacon : DccRequest ℕ ℕ × ℕ
beacon = (record { source = 1; destination = 2; ether_type = 35_143; dcc_profile = 3 }, 99)

abbrev stack : Vanetza Beacons ℤ ℕ ℕ ℕ ℕ
stack = record {
  start = λ t. (t, t);
  now = λ b. b.0;
  next = λ b. b.1;
  trigger = λ t b. ((t, b.1 +ℤ pos 1_000), beacon ∷ []);
  request = λ cam b. ((b, []), true);
  indicate = λ packet source destination b. (b, []);
  update_position = λ fix b. b;
  map_profile_onto_ac = λ p. p;
}

abbrev numbers : Numbers ℤ
numbers = record {
  in_microdegrees = λ x. x;
  in_tenths = λ x. x *ℤ pos 10;
  to_integer = λ x. x;
  is_nonnegative = λ x. leb_ℤ (pos 0) x;
}

abbrev accepted : Validate
accepted cam = none

abbrev RouterState : Type 0
RouterState = Router Beacons ℤ ℕ ℕ ℕ ℕ

abbrev idle_router : RouterState
idle_router = record {
  position_fix = record {
    timestamp = pos 0;
    longitude = pos 0;
    latitude = pos 0;
    course = negsuc 0;
    speed = pos 0;
  };
  runtime = none;
  access_interface = none;
  init_done = false;
  tracker = new_tracker;
  random_number = unset;
  vehicle_object = some 5;
  radio_object = some 6;
  future = none;
  contexts = λ p. record { element = none };
  transmissions = λ p. new_transmission (
    record { source_addr = 1; destination_addr = 2; ether_type = 35_143; access_category = 3 },
    99,
  );
  next_transmission = 0;
  drawn = 0;
  utc_start = some utc_its_diff;
}

abbrev started : Runtime (Base Beacons ℕ ℕ ℕ)
started = record {
  base = ((pos 2_000, pos 2_000), []);
  sim_start_time = pos 2_000_000;
  its_start_time = pos 2_000;
  last_trigger = pos 0;
}

-- One beacon is due, or none.
abbrev due : Beacons → ℕ
due b = if leb_ℤ b.1 b.0 then 1 else 0

beacons_end :
    (b : Beacons)
    → b.1 ≤ℤ b.0
    → (due (stack.trigger b.1 b).0 < due b)
      × (b.1 ≤ℤ (stack.trigger b.1 b).0.1)
      × (length (stack.trigger b.1 b).1 ≤ 1)
unfolding ◌+ℤ◌
beacons_end b h = (ground (arith, h), ground arith, omega arith)

drop_outdated_ends_example :
    (runtime' : Runtime (Base Beacons ℕ ℕ ℕ)) × (i' : Interface stack) × (drop_outdated stack 2
        (record idle_router { runtime = some started; access_interface = some new_interface })
      ≡ ok (record idle_router { runtime = some runtime'; access_interface = some i' }))
    × (runtime'.base.0.0 <ℤ runtime'.base.0.1)
    × Idle stack new_interface i'
drop_outdated_ends_example =
    Outdated.drop_outdated_ends stack due beacons_end 2 started new_interface idle_router
      (omega arith) refl (omega arith) refl

abbrev waiting_router : System RouterState
waiting_router = world_of (record idle_router { runtime = some started })

in_future : leb_ℤ zero_time (get_next_start (manual stack) started) ≡ true
unfolding zero_time at_second get_next_start manual ◌*ℤ◌ ◌+ℤ◌ ◌-ℤ◌
in_future = refl

no_cache : System RouterState → Bool
no_cache s = true

update_meets_callback_example :
    (d' : RouterUpdateData) × (s' : System RouterState) × (schedule_next_update stack numbers
        accepted no_cache 2 7 new_data waiting_router
      ≡ ok (d', s'))
    × (s'.model.runtime ≡ some started)
    × Scheduled stack numbers accepted no_cache 2 7
        (get_next_start (manual stack) started)
        new_data
        d'
        waiting_router
        s'
    × (trigger (manual stack) (next_start_time s'.actions s'.model.tracker) started
        ≡ trigger_its (manual stack) ((manual stack).next started.base) started)
update_meets_callback_example =
    NextUpdate.update_meets_callback stack numbers accepted no_cache 2 7 new_data started
      waiting_router refl refl in_future

abbrev described : String → System RouterState
described t = record (world_of idle_router) {
  actions = λ r. record (tick r (pos 20)) { action_type = t };
  model = record idle_router { tracker = record { next_start = some 2; next_end = some 3 } };
}
