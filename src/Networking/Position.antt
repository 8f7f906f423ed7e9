-- ===== src/Networking/Position.antt =====
-- src/networking/PositionProvider.cpp. Of vanetza::PositionFix the constant confidences are left out.
use cosidia.Prelude.{Option}
use cosidia.Prelude.Result.{Result, ok, ◌>>=◌}
use cosidia.Core.Clock.{TimePoint}
use cosidia.Networking.Runtime.{ItsTime, convert}
use cosidia.Vehicles.Vehicle.{VehicleContext}

pub record PositionFix (Real : Type 0) : Type 0 where
  pub timestamp : ItsTime
  pub longitude : Real
  pub latitude : Real
  pub course : Real
  pub speed : Real

unfoldable pub update_position :
    {Real : Type 0} → Option TimePoint → VehicleContext Real → Result (PositionFix Real)
update_position utc_start context = do
  timestamp ← convert utc_start context.last_update
  ok (record {
    timestamp = timestamp;
    longitude = context.longitude;
    latitude = context.latitude;
    course = context.heading;
    speed = context.speed;
  })
