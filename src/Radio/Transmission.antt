-- ===== src/Radio/Transmission.antt =====
-- src/radio/Transmission.hpp and src/radio/Transmission.cpp. A vehicle is reached through a number,
-- and `context_of` is its VehicleObject::getContext(), a shared pointer, `none` where it is null. The weak pointers to the vehicles have not
-- expired. The request and the packet, which are Vanetza's, are only carried along.
use cosidia.Prelude.{eqb_ℤ, Bool, true, false, not, ◌&&◌, Option, none, some, List, [], ◌∷◌}
use cosidia.Prelude.Result.{Result, ok, ◌>>=◌, ◌>>◌, enforce}
use cosidia.Std.Map.{assign}
use cosidia.Core.Action.{Ref, ObjectId, valid, stub}

pub record Receiver (Context : Type 0) : Type 0 where
  pub lowest_layer : ObjectId
  pub mobility : Ref
  pub receiver_context : Option Context

pub record Transmission (Context Payload : Type 0) : Type 0 where
  pub emitter : ObjectId
  pub emitter_context : Option Context
  pub possible_receivers : List (ObjectId × Receiver Context)
  pub payload : Payload
  pub is_setup_done : Bool

-- The loop of setupReceiverContext.
unfoldable pub refresh :
    {Context : Type 0}
    → (Ref → Result (Option Context))
    → List (ObjectId × Receiver Context)
    → Result (List (ObjectId × Receiver Context))
refresh context_of [] = ok []
refresh context_of ((id, r) ∷ rest) = do
  context ← context_of r.mobility
  rest' ← refresh context_of rest
  ok ((id, record r { receiver_context = context }) ∷ rest')

module _ {Context Payload : Type 0} where
  abbrev pub new_transmission : Payload → Transmission Context Payload
  new_transmission payload = record {
    emitter = stub;
    emitter_context = none;
    possible_receivers = [];
    payload = payload;
    is_setup_done = false;
  }

  unfoldable pub is_setup : Transmission Context Payload → Bool
  is_setup t =
      t.is_setup_done
      && not (eqb_ℤ t.emitter stub)
      && elim t.emitter_context [ none ↦ false | some _ ↦ true ]

  unfoldable pub setup_receiver_context :
      Bool
      → (Ref → Result (Option Context))
      → Transmission Context Payload
      → Result (Transmission Context Payload)
  unfolding refresh is_setup
  setup_receiver_context on_core_thread context_of t = do
    enforce on_core_thread "Transmission: setupReceiverContext() on wrong thread"
    enforce (not (is_setup t)) "Transmission: duplicate setup"
    receivers ← refresh context_of t.possible_receivers
    ok (record t { possible_receivers = receivers; is_setup_done = true })

  -- `vehicle` is a shared pointer, which may be null.
  unfoldable pub add_possible_receiver :
      ObjectId → Option Ref → Transmission Context Payload → Result (Transmission Context Payload)
  unfolding is_setup
  add_possible_receiver id none t = do
    enforce (valid id) "Transmission: invalid Receiver Id"
    enforce false "Transmission: vehicle Object not valid"
    ok t
  add_possible_receiver id (some vehicle) t = do
    enforce (valid id) "Transmission: invalid Receiver Id"
    enforce (not (is_setup t)) "Transmission: tried to add vehicle to finished transmission"
    let r : Receiver Context = record {
      lowest_layer = id;
      mobility = vehicle;
      receiver_context = none;
    }
    ok (record t { possible_receivers = assign id r t.possible_receivers })

  unfoldable pub add_emitter :
      ObjectId
      → Option Context
      → Transmission Context Payload
      → Result (Transmission Context Payload)
  unfolding is_setup
  add_emitter id dynamics t = do
    enforce (valid id) "Transmission: invalid Receiver Id"
    enforce (not (is_setup t)) "Transmission: tried to add vehicle to finished transmission"
    ok (record t { emitter = id; emitter_context = dynamics })
