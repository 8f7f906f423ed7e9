-- ===== src/Networking/Router.antt =====
-- The state of src/networking/Router.cpp. Vanetza's router with the runtime that it was constructed
-- on is one value of the parameter `V`; what it requests from the congestion control while it runs
-- is collected and passed through to the access interface in order, before anything else
-- happens. The test of a PureLocal holds of `this`, so an element is an option. The weak pointers
-- have not expired. A context is a shared pointer, `none` where it is null.
pub mod Stack
pub mod Tasks
pub mod Behaviour
pub mod Outdated
use cosidia.Prelude.{ℤ, ℕ, Bool, Option, List}
use cosidia.Prelude.Result.{Result}
use cosidia.Utils.ContextContainer.{ContextContainer}
use cosidia.Utils.ReadOnly.{ReadOnly}
use cosidia.Core.Clock.{TimePoint}
use cosidia.Core.Action.{Ref}
use cosidia.Networking.Runtime.{ItsTime, Runtime}
use cosidia.Networking.Tracker.{Tracker}
use cosidia.Networking.AccessInterface.{AccessInterface}
use cosidia.Networking.Position.{PositionFix}
use cosidia.Networking.Dcc.{DccRequest, AccessRequest}
use cosidia.Vehicles.Vehicle.{VehicleContext}
use cosidia.Radio.Transmission.{Transmission}
use cosidia.Application.Cam.{Cam}

-- What the router's code uses of Vanetza. `start` constructs the runtime, and the router on it; the
-- other operations also return what is requested from the congestion control.
pub record Vanetza (V Real Address Profile Category Packet : Type 0) : Type 0 where
  pub start : ItsTime → V
  pub now : V → ItsTime
  pub next : V → ItsTime
  pub trigger : ItsTime → V → V × List (DccRequest Address Profile × Packet)
  pub request : Cam → V → (V × List (DccRequest Address Profile × Packet)) × Bool
  pub indicate : Packet → Address → Address → V → V × List (DccRequest Address Profile × Packet)
  pub update_position : PositionFix Real → V → V
  pub map_profile_onto_ac : Profile → Category

-- RouterUpdateData
pub record RouterUpdateData : Type 0 where
  pub actions_to_schedule : List Ref
  pub action_to_delete : Option Ref
  pub transmission : Option Ref

-- The runtime stands on the router's state and the requests that are not passed through yet.
abbrev pub Base : (V Address Profile Packet : Type 0) → Type 0
Base V Address Profile Packet = V × List (DccRequest Address Profile × Packet)

-- The fields of Router, and what it shares with the others: the vehicles' contexts, the
-- transmissions behind pointers, the core's random numbers and the start time of the simulation.
pub record Router (V Real Address Profile Category Packet : Type 0) : Type 0 where
  pub position_fix : PositionFix Real
  pub runtime : Option (Runtime (Base V Address Profile Packet))
  pub access_interface :
      Option (AccessInterface (VehicleContext Real) (AccessRequest Address Category × Packet))
  pub init_done : Bool
  pub tracker : Tracker
  pub random_number : ReadOnly ℤ
  pub vehicle_object : Option Ref
  pub radio_object : Option Ref
  pub future : Option (Result RouterUpdateData)
  pub contexts : Ref → ContextContainer (VehicleContext Real)
  pub transmissions :
      Ref → Transmission (VehicleContext Real) (AccessRequest Address Category × Packet)
  pub next_transmission : ℕ
  pub drawn : ℕ
  pub utc_start : Option TimePoint
