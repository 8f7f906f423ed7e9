-- ===== src/Application/Internal.antt =====
-- src/application/InternalCaService.cpp, without the request, which is the router's.
use cosidia.Prelude.{Option, none}
use cosidia.Prelude.Result.{Result, ◌>>=◌}
use cosidia.Core.Clock.{TimePoint}
use cosidia.Networking.Position.{PositionFix}
use cosidia.Application.Cam.{Cam, Validate, Numbers, generation_delta_time, check_cam}

-- `t` is the start time of the action.
unfoldable pub make_cam :
    {Real : Type 0}
    → Numbers Real
    → Validate
    → Option TimePoint
    → PositionFix Real
    → TimePoint
    → Result Cam
make_cam numbers validate utc_start fix t = do
  g ← generation_delta_time utc_start t
  check_cam validate (record {
    protocol_version = 2;
    station_id = 1;
    generation_delta_time = g;
    longitude = numbers.in_microdegrees fix.longitude;
    latitude = numbers.in_microdegrees fix.latitude;
    semi_major_orientation = none;
    heading = numbers.in_tenths fix.course;
    speed = 0;
  })
