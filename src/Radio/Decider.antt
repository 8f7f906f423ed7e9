-- ===== src/Radio/Decider.antt =====
-- src/radio/PhysicalDecider.cpp (the deciders that answer without random noise),
-- src/radio/InterferenceDecider.cpp and src/radio/RadioDecider.hpp. The distance of
-- two vehicles, a floating point number compared with the limit, is the parameter `in_range`.
pub mod Range
pub mod Power
use cosidia.Prelude.{
  ℤ, ℕ, ◌≡◌, ◌==◌, Bool, true, false, Option, none, some, List, [], ◌∷◌, arith, if◌then◌else◌, refl,
  ap,
}
use cosidia.Prelude.Result.{Result, ok, ◌>>=◌, ◌>>◌, enforce, deref}
use cosidia.Core.Action.{Ref, ObjectId, valid}
use cosidia.Radio.Transmission.{Receiver, Transmission, is_setup}

-- A std::map whose keys are shared pointers, in the order of insertion: it is never iterated.
abbrev pub RadioContext : Type 0
RadioContext = List (Ref × List ObjectId)

unfoldable pub find_transmission : Ref → RadioContext → Option (List ObjectId)
find_transmission t [] = none
find_transmission t ((u, ids) ∷ m) = if u == t then some ids else find_transmission t m

-- std::map::insert, which leaves an entry with the key as it is.
unfoldable pub insert_transmission : Ref → List ObjectId → RadioContext → RadioContext
insert_transmission t ids [] = (t, ids) ∷ []
insert_transmission t ids ((u, old) ∷ m) =
    if u == t then (u, old) ∷ m else (u, old) ∷ insert_transmission t ids m

unfoldable pub erase_transmission : Ref → RadioContext → RadioContext
erase_transmission t [] = []
erase_transmission t ((u, ids) ∷ m) = if u == t then m else (u, ids) ∷ erase_transmission t m

module _ {Context : Type 0} where
  abbrev pub receiver_ids : List (ObjectId × Receiver Context) → List ObjectId
  receiver_ids [] = []
  receiver_ids ((id, r) ∷ rest) = id ∷ receiver_ids rest

  unfoldable pub receivers_in_range :
      (Context → Context → Bool)
      → Context
      → List (ObjectId × Receiver Context)
      → Result (List ObjectId)
  receivers_in_range in_range tx [] = ok []
  receivers_in_range in_range tx ((id, r) ∷ rest) = do
    rx ← deref r.receiver_context
    ids ← receivers_in_range in_range tx rest
    ok (if in_range tx rx then id ∷ ids else ids)

module _ {Context Payload : Type 0} where
  -- MessagesForEveryonePhysicalDecider::decideOnPhysical
  unfoldable pub decide_for_everyone : Transmission Context Payload → Result (List ObjectId)
  decide_for_everyone t = do
    enforce (is_setup t) "MessagesForEveryonePhysicalDecider: transmission not setup!"
    ok (receiver_ids t.possible_receivers)

  -- SimpleDistancePhysicalDecider::decideOnPhysical
  unfoldable pub decide_by_distance :
      (Context → Context → Bool) → Transmission Context Payload → Result (List ObjectId)
  unfolding receivers_in_range
  decide_by_distance in_range t = do
    enforce (is_setup t) "SimpleDistancePhysicalDecider: transmission is not set-up!"
    tx ← deref t.emitter_context
    receivers_in_range in_range tx t.possible_receivers

-- NoInterferenceDecider::decideOnInterferences
unfoldable pub decide_on_interferences : Ref → RadioContext → Result (List ObjectId)
decide_on_interferences t context = deref (find_transmission t context)
