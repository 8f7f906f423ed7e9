-- ===== src/Radio/Decider/Power.antt =====
-- LogDistancePhysicalDecider of src/radio/PhysicalDecider.cpp. Its numbers are floating point, so their
-- type `F` and what the C++ library does on them are parameters, and `noise n` is the n-th draw of
-- the normal distribution. The reference loss is left out, since the decider computes it and does
-- not use it.
pub mod Nearer
use cosidia.Prelude.{
  ◌≡◌, refl, ℕ, ◌+◌, Bool, true, false, some, Option, List, [], ◌∷◌, arith, if◌then◌else◌, All,
  length,
}
use cosidia.Prelude.Result.{Result, ok, ◌>>=◌, ◌>>◌, enforce, deref}
use cosidia.Core.Action.{ObjectId}
use cosidia.Radio.Transmission.{Receiver, Transmission, is_setup}

-- std::log10, the operators of double and the literals of the decider.
pub record Floats (F : Type 0) : Type 0 where
  pub plus : F → F → F
  pub minus : F → F → F
  pub times : F → F → F
  pub log10 : F → F
  -- a > b
  pub above : F → F → Bool
  pub ten : F
  pub minus_98 : F
  -- Transmission::getTransmissionPower, 23 dBm
  pub transmission_power : F

module _ {F Context : Type 0} (f : Floats F) (distance : Context → Context → F) (exponent : F)
    (noise : ℕ → F) where
  unfoldable pub path_loss : ℕ → F → F
  path_loss n dist = f.plus (f.times (f.times f.ten exponent) (f.log10 dist)) (noise n)

  -- The loop, from the n-th draw on: the receivers, and the number of draws so far.
  unfoldable pub receivers_by_power :
      ℕ → Context → List (ObjectId × Receiver Context) → Result (List ObjectId × ℕ)
  unfolding path_loss
  receivers_by_power n tx [] = ok ([], n)
  receivers_by_power n tx ((id, r) ∷ rest) = do
    rx ← deref r.receiver_context
    (ids, m) ← receivers_by_power (n + 1) tx rest
    let arrives = f.above (f.minus f.transmission_power (path_loss n (distance tx rx))) f.minus_98
    ok (if arrives then id ∷ ids else ids, m)

  unfoldable pub decide_by_power :
      {Payload : Type 0} → ℕ → Transmission Context Payload → Result (List ObjectId × ℕ)
  unfolding receivers_by_power
  decide_by_power n t = do
    enforce (is_setup t) "LogDistancePhysicalDecider: transmission is not set-up!"
    tx ← deref t.emitter_context
    receivers_by_power n tx t.possible_receivers
