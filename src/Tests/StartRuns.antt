-- ===== src/Tests/StartRuns.antt =====
-- Runs of src/mobility/SumoMobilityManager.cpp, src/traci/API.cpp, src/output/SqliteBackend.cpp and
-- src/objects/ObjectList.cpp.
use cosidia.Prelude.{
  ℤ, pos, negsuc, ◌+ℤ◌, ◌*ℤ◌, leb_ℤ, ℕ, ◌+◌, ◌*◌, ◌^◌, ◌<◌, ◌≡◌, refl, arith, Bool, true, false,
  none, List, [], ◌∷◌, String, ltb, inl,
}
use cosidia.Prelude.Result.{ok, err, socket_exception}
use cosidia.Core.Clock.{at_millisecond, at_second, zero_time}
use cosidia.Core.Action.{Ref}
use cosidia.Kernel.{System}
use cosidia.Output.Backend.{
  Backend, new_backend, record_timing, Reach, stays, steps, finished, at_condition, waits, writes,
  records, continues, wakes, commits,
}
use cosidia.Output.Backend.Conserved
use cosidia.Output.Backend.Conserved.{IsConserved}
use cosidia.Traci.Connect.{Attempts, connect}
use cosidia.Traci.Connect.Backoff
use cosidia.Traci.Connect.Backoff.{Fails}
use cosidia.Vehicles.Traci.{Answers}
use cosidia.Vehicles.SumoManager.{SumoManager, update_vehicles, at_key}
use cosidia.Vehicles.SumoManager.Updates
use cosidia.Vehicles.SumoManager.Updates.{Delivers, known_ids}
use cosidia.Vehicles.SumoManager.Handing.{hand_over}
use cosidia.Tests.World.{world_of, tick}

-- One record is written.
abbrev written : Backend ℕ
written = record {
  queue = [];
  consumer_running = true;
  table = 7 ∷ [];
  phase = at_condition;
  recorded = 7 ∷ [];
}

abbrev queued : Backend ℕ
queued = record {
  queue = 7 ∷ [];
  consumer_running = true;
  table = [];
  phase = at_condition;
  recorded = 7 ∷ [];
}

abbrev woken : Backend ℕ
woken = record queued { phase = writes (7 ∷ []); queue = [] }

run : Reach new_backend written
unfolding record_timing
run =
    steps new_backend woken written
      (steps new_backend (record queued { phase = waits }) woken
        (steps new_backend queued (record queued { phase = waits })
          (steps new_backend new_backend queued (stays new_backend) (records 1024 7 new_backend))
          (continues queued refl refl))
        (wakes (record queued { phase = waits }) refl (inl (λ e. cc))))
      (commits woken (7 ∷ []) refl)

reachable-IsConserved_example : IsConserved written
reachable-IsConserved_example = Conserved.reachable-IsConserved written run

task_lost_example :
    (b : Backend ℕ) × Reach new_backend b
    × (b.phase ≡ finished)
    × (b.recorded ≡ 7 ∷ 8 ∷ [])
    × (b.queue ≡ 8 ∷ [])
    × (b.table ≡ 7 ∷ [])
task_lost_example = Conserved.task_lost 1024 8 written run refl

-- SUMO is up after three failures.
abbrev starting : Attempts
starting n = elim (ltb n 3) [ true ↦ err socket_exception | false ↦ ok tt ]

connect_ends_example :
    ((k : ℕ)
      → k < 10
      → Fails starting 0 k
      → starting k ≡ ok tt
      → (slept : ℕ) × (connect true starting ≡ (ok tt, slept)) × (slept + 500 ≡ 500 * 2 ^ k))
    × (Fails starting 0 10 → connect true starting ≡ (err socket_exception, 255_500))
    × (Fails starting 0 1 → connect false starting ≡ (err socket_exception, 0))
connect_ends_example = Backoff.connect_ends starting

abbrev answers : ℕ → Answers ℤ
answers n = record {
  zero = pos 0;
  simulation_results = [];
  vehicle_results = λ v. [];
  convert_geo = λ (x, y, z). (x, y);
  shows = λ t s. true;
  memory = λ v. record { longitude = pos 0; latitude = pos 0; heading = pos 0; speed = pos 0 };
}

abbrev driving : System (SumoManager ℤ)
driving = world_of (record {
  id_mapper = ("a", pos 5) ∷ ("b", negsuc 0) ∷ ("c", pos 9) ∷ [];
  future = none;
  updater = none;
  steps = 0;
  updates = λ p. [];
  next_data = 1;
})

abbrev by_text : String → String → Bool
by_text s t = false

known : known_ids driving.model.id_mapper ("c" ∷ "b" ∷ "a" ∷ []) ≡ ok (pos 9 ∷ pos 5 ∷ [])
unfolding known_ids at_key
known = refl

in_time : leb_ℤ zero_time (hand_over (tick 1 (pos 20)) (pos 0) 0 (pos 0)).start_time ≡ true
unfolding zero_time at_second at_millisecond ◌*ℤ◌ ◌+ℤ◌
in_time = refl

update_vehicles-Delivers_example :
    (ns : List Ref) × (s' : System (SumoManager ℤ)) × (update_vehicles
        (pos 0)
        by_text
        (λ s. 50)
        answers
        (λ n. true)
        []
        (ok tt)
        7
        1
        0
        ("c" ∷ "b" ∷ "a" ∷ [])
        driving
      ≡ ok (ns, s'))
    × Delivers
        (pos 0)
        by_text
        (λ s. 50)
        answers
        (λ n. true)
        []
        (ok tt)
        1
        0
        (pos 2)
        ("c" ∷ "b" ∷ "a" ∷ [])
        (pos 9 ∷ pos 5 ∷ [])
        driving
        ns
        s'
update_vehicles-Delivers_example =
    Updates.update_vehicles-Delivers (pos 0) by_text (λ s. 50) answers (λ n. true) [] (ok tt) 7 1 0
      ("c" ∷ "b" ∷ "a" ∷ []) (pos 9 ∷ pos 5 ∷ []) driving known in_time (omega arith)
