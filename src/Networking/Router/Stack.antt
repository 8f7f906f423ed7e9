-- ===== src/Networking/Router/Stack.antt =====
-- The calls of src/networking/Router.cpp on its runtime, on Vanetza's router and on the access
-- interface behind it.
use cosidia.Prelude.{pos, leb_ℤ, ℕ, zero, suc, true, false, Option, some, List, [], ◌∷◌, ◌++◌}
use cosidia.Prelude.Result.{Result, ok, err, no_fuel, ◌>>=◌, deref, enforce, ◌>>◌}
use cosidia.Core.Clock.{TimePoint}
use cosidia.Networking.Runtime.{ItsTime, ManualRuntime, Runtime, trigger_its}
use cosidia.Networking.Runtime
use cosidia.Networking.AccessInterface.{AccessInterface}
use cosidia.Networking.AccessInterface
use cosidia.Networking.Dcc.{DccRequest, AccessRequest, pass_through}
use cosidia.Networking.Position
use cosidia.Networking.Position.{PositionFix}
use cosidia.Application.Cam.{Validate, Numbers}
use cosidia.Application.Internal.{make_cam}
use cosidia.Vehicles.Vehicle.{VehicleContext}
use cosidia.Networking.Router.{Vanetza, Router, Base}

module _ {V Real Address Profile Category Packet : Type 0}
    (van : Vanetza V Real Address Profile Category Packet) where
  unfoldable pub manual : ManualRuntime (Base V Address Profile Packet)
  manual = record {
    init = λ t. (van.start t, []);
    now = λ b. van.now b.0;
    next = λ b. van.next b.0;
    trigger = λ t b. (let (v, requests) = van.trigger t b.0 in ok (v, b.1 ++ requests));
  }

  -- DccPassThrough::request of each.
  unfoldable pub request_all :
      List (DccRequest Address Profile × Packet)
      → Option (AccessInterface (VehicleContext Real) (AccessRequest Address Category × Packet))
      → Result
          (Option (AccessInterface (VehicleContext Real) (AccessRequest Address Category × Packet)))
  request_all [] i = ok i
  request_all ((r, packet) ∷ rest) i = do
    access ← deref i
    access' ← AccessInterface.request (pass_through van.map_profile_onto_ac r, packet) access
    request_all rest (some access')

  unfoldable pub absorb :
      Runtime (Base V Address Profile Packet)
      → Router V Real Address Profile Category Packet
      → Result (Router V Real Address Profile Category Packet)
  unfolding request_all
  absorb runtime r = do
    i ← request_all runtime.base.1 r.access_interface
    ok (record r {
      runtime = some (record runtime { base = (runtime.base.0, []) });
      access_interface = i;
    })

  -- mRuntime(this).trigger of an ITS time point, and of a simulated one.
  unfoldable pub trigger_stack_its :
      ItsTime
      → Router V Real Address Profile Category Packet
      → Result (Router V Real Address Profile Category Packet)
  unfolding absorb manual
  trigger_stack_its tp r = do
    runtime ← deref r.runtime
    runtime' ← Runtime.trigger_its manual tp runtime
    absorb runtime' r

  unfoldable pub trigger_stack :
      TimePoint
      → Router V Real Address Profile Category Packet
      → Result (Router V Real Address Profile Category Packet)
  unfolding absorb manual
  trigger_stack tp r = do
    runtime ← deref r.runtime
    runtime' ← Runtime.trigger manual tp runtime
    absorb runtime' r

  -- A call of mRouter(this) that may request something.
  unfoldable pub call_stack :
      (V → V × List (DccRequest Address Profile × Packet))
      → Router V Real Address Profile Category Packet
      → Result (Router V Real Address Profile Category Packet)
  unfolding absorb
  call_stack f r = do
    runtime ← deref r.runtime
    let (v, requests) = f runtime.base.0
    absorb (record runtime { base = (v, runtime.base.1 ++ requests) }) r

  -- The loop of initRouter, on fuel.
  unfoldable pub drop_outdated :
      ℕ
      → Router V Real Address Profile Category Packet
      → Result (Router V Real Address Profile Category Packet)
  unfolding trigger_stack_its
  drop_outdated zero r = err no_fuel
  drop_outdated (suc fuel) r = deref r.runtime >>= λ runtime.
      elim (leb_ℤ (Runtime.get_duration_now_to_next manual runtime) (pos 0)) [
        | false ↦ ok r
        | true ↦ trigger_stack_its (van.next runtime.base.0) r >>= λ r'.
            deref r'.access_interface >>= λ i.
            drop_outdated fuel
              (record r' { access_interface = some (AccessInterface.drop_transmission i) })
      ]

  -- The parts of commonActions up to the trigger of the runtime.
  unfoldable pub move_stack :
      VehicleContext Real
      → TimePoint
      → Router V Real Address Profile Category Packet
      → Result (Router V Real Address Profile Category Packet)
  unfolding call_stack trigger_stack
  move_stack context t r = do
    fix ← Position.update_position r.utc_start context
    r' ← call_stack (λ v. (van.update_position fix v, [])) (record r { position_fix = fix })
    trigger_stack t r'

  -- InternalCaService::triggerCam.
  unfoldable pub trigger_cam :
      Numbers Real
      → Validate
      → TimePoint
      → Router V Real Address Profile Category Packet
      → Result (Router V Real Address Profile Category Packet)
  unfolding call_stack
  trigger_cam numbers validate t r = do
    cam ← make_cam numbers validate r.utc_start r.position_fix t
    runtime ← deref r.runtime
    r' ← call_stack (λ v. (van.request cam v).0) r
    enforce (van.request cam runtime.base.0).1 "Router: Request was not accepted"
    ok r'
