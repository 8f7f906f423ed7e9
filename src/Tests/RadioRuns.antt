-- ===== src/Tests/RadioRuns.antt =====
-- Runs of src/radio.
use cosidia.Prelude.{
  Option, ◌==◌, if◌then◌else◌, pos, ◌+ℤ◌, ◌*ℤ◌, leb_ℤ, ◌≡◌, refl, ℕ, ◌+◌, leb, Bool, true, none,
  some, [], ◌∷◌, String, arith, ◌&&◌,
}
use cosidia.Prelude.Result.{ok, ◌>>=◌}
use cosidia.Core.Clock.{zero_time, at_second, at_millisecond}
use cosidia.Core.Action.{Ref}
use cosidia.Kernel.{System}
use cosidia.Radio.Transmission.{Transmission, new_transmission, setup_receiver_context, add_emitter}
use cosidia.Radio.Decider.{RadioContext, insert_transmission, find_transmission, decide_by_distance}
use cosidia.Radio.Decider.Range
use cosidia.Radio.Medium.{Radio, RadioResult, end_transmission, after}
use cosidia.Radio.Medium.Indications
use cosidia.Radio.Medium.Indications.{Indicates, indication}
use cosidia.Tests.World.{tick, core, lamp}

-- A vehicle's context is its position on a line, and it is in range up to 5 from it.
abbrev near : ℕ → ℕ → Bool
near a b = leb a (b + 5) && leb b (a + 5)

-- The vehicle behind 40 has not got a context yet.
abbrev position : Ref → Option ℕ
position v = if v == 40 then none else some v

abbrev heard : Transmission ℕ String
heard = record (new_transmission "cam") {
  possible_receivers =
      (pos 3, record { lowest_layer = pos 3; mobility = 12; receiver_context = none })
      ∷ (pos 4, record { lowest_layer = pos 4; mobility = 30; receiver_context = none })
      ∷ [];
}

reception_in_range_example :
    (setup_receiver_context true (λ v. ok (position v)) heard
      >>= add_emitter (pos 9) (some 10)
      >>= decide_by_distance near)
    ≡ ok (pos 3 ∷ [])
reception_in_range_example = Range.reception_in_range near position heard (pos 9) 10 refl refl

abbrev on_air : System (Radio ℕ String)
on_air = record {
  on_core_thread = true;
  core = core;
  actions = λ r. record (tick r (pos 20)) { action_type = "transmissionEnd"; action_data = some 6 };
  next_action = 4;
  objects = λ r. lamp;
  model = record {
    future = none;
    radio_context = record { element = some [] };
    transmissions = λ t. heard;
  };
}

abbrev others : RadioContext
others = (5, pos 3 ∷ []) ∷ []

unknown : find_transmission 6 others ≡ none
unfolding find_transmission
unknown = refl

in_time : leb_ℤ zero_time (after (pos 1) (on_air.actions 1)) ≡ true
unfolding zero_time at_second at_millisecond ◌*ℤ◌ ◌+ℤ◌
in_time = refl

transmission_ends_example :
    (result : RadioResult) × (s' : System (Radio ℕ String)) × (end_transmission 7 1
        (insert_transmission 6 (pos 3 ∷ pos 4 ∷ []) others)
        on_air
      ≡ ok (result, s'))
    × (result.context_to_swap ≡ others)
    × Indicates s'.actions
        (indication (on_air.actions 1) (pos 2) 6)
        result.actions_to_schedule
        (pos 3 ∷ pos 4 ∷ [])
transmission_ends_example =
    Indications.transmission_ends 7 1 6 (pos 3 ∷ pos 4 ∷ []) others on_air unknown
      (refl, (refl, tt)) refl in_time (omega arith)
