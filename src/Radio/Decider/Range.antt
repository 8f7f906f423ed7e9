-- ===== src/Radio/Decider/Range.antt =====
-- Reception by distance, from src/radio/Transmission.cpp and src/radio/PhysicalDecider.cpp.
use cosidia.Prelude.{
  ◌≡◌, Bool, true, false, ◌&&◌, Option, none, some, List, [], ◌∷◌, arith, if◌then◌else◌, refl,
}
use cosidia.Prelude.Result.{ok, err, undefined, ◌>>=◌}
use cosidia.Core.Action.{Ref, ObjectId, valid, stub}
use cosidia.Radio.Transmission.{
  Receiver, Transmission, is_setup, refresh, setup_receiver_context, add_emitter,
}
use cosidia.Radio.Decider.{receivers_in_range, decide_by_distance}

module _ {Context : Type 0} (in_range : Context → Context → Bool)
    (context_of : Ref → Option Context) where
  -- The ids of the receivers whose vehicles are in range.
  abbrev pub ids_in_range : Context → List (ObjectId × Receiver Context) → List ObjectId
  ids_in_range tx [] = []
  ids_in_range tx ((id, r) ∷ rest) =
      let ids = ids_in_range tx rest in
      elim (context_of r.mobility) [
        | none ↦ ids
        | some rx ↦ if in_range tx rx then id ∷ ids else ids
      ]

  -- No vehicle of a receiver is without a context.
  abbrev pub all_have_context : List (ObjectId × Receiver Context) → Bool
  all_have_context [] = true
  all_have_context ((id, r) ∷ rest) =
      elim (context_of r.mobility) [ none ↦ false | some rx ↦ true ] && all_have_context rest

  refreshed : List (ObjectId × Receiver Context) → List (ObjectId × Receiver Context)
  refreshed [] = []
  refreshed ((id, r) ∷ rest) =
      (id, record r { receiver_context = context_of r.mobility }) ∷ refreshed rest

  refresh-refreshed :
      (l : List (ObjectId × Receiver Context))
      → refresh (λ v. ok (context_of v)) l ≡ ok (refreshed l)
  unfolding refresh refreshed
  refresh-refreshed [] = refl
  refresh-refreshed ((id, r) ∷ rest) = ground (arith, refresh-refreshed rest)

  receivers_in_range-refreshed :
      (tx : Context) (l : List (ObjectId × Receiver Context))
      → receivers_in_range in_range tx (refreshed l)
        ≡ (if all_have_context l then ok (ids_in_range tx l) else err undefined)
  unfolding receivers_in_range refreshed
  receivers_in_range-refreshed tx [] = refl
  receivers_in_range-refreshed tx ((id, r) ∷ rest) =
      ground (arith, receivers_in_range-refreshed tx rest)

  module _ {Payload : Type 0} where
    -- On the core thread and with a valid emitter, a transmission that has no emitter yet takes its
    -- receivers' contexts and its emitter, and then SimpleDistancePhysicalDecider returns the
    -- ids of just those receivers whose vehicles are in range, in the order of the receivers,
    -- where each vehicle has a context; where one has none, the decider dereferences a null
    -- pointer.
    pub reception_in_range :
        (t : Transmission Context Payload) (id : ObjectId) (tx : Context)
        → t.emitter ≡ stub
        → valid id ≡ true
        → (setup_receiver_context true (λ v. ok (context_of v)) t
            >>= add_emitter id (some tx)
            >>= decide_by_distance in_range)
          ≡ (if all_have_context t.possible_receivers
              then ok (ids_in_range tx t.possible_receivers)
              else err undefined)
    unfolding setup_receiver_context add_emitter decide_by_distance is_setup
    reception_in_range t id tx e v = ground (
      arith,
      e,
      v,
      refresh-refreshed t.possible_receivers,
      receivers_in_range-refreshed tx t.possible_receivers,
    )
