-- ===== src/Tests/ThreadRuns.antt =====
-- Runs of the threads and of the clock of src/core.
use cosidia.Prelude.{
  pos, ◌+ℤ◌, ◌-ℤ◌, ◌*ℤ◌, ℕ, ◌+◌, ◌≤◌, ◌≡◌, ◌⊎◌, refl, arith, none, zero, [], ◌∷◌, All, true,
}
use cosidia.Prelude.Result.{Result, ok, err, no_fuel}
use cosidia.Core.Clock.{Duration, TimePoint}
use cosidia.Core.SteadyClock.{SteadyClock, new_clock, get_duration_until, get_sim_time_now}
use cosidia.Core.SteadyClock.Overshoot
use cosidia.Prelude.{Option, some, ◌↔◌, suc}
use cosidia.Fiber.WorkStealing.{Queues, Schedulers, pick_next}
use cosidia.Fiber.WorkStealing.Ends
use cosidia.Kernel.Schedule.{
  get_next_object_id, add_unique_object, make_action, schedule_start_handler, schedule_action,
}
use cosidia.Start.Simulation.{get_simulation_starter_objects}
use cosidia.Objects.Object.{is_initialized}
use cosidia.Std.Set
use cosidia.Std.Map.{find, update_at}
use cosidia.Objects.Container
use cosidia.Objects.Container.{
  add_unique, insert_unique, find_name, add_to_object_container, insert_object,
}
use cosidia.Core.Action.{create, get_time}
use cosidia.Core.Clock.{zero_time, at_second}
use cosidia.Core.StateMachine.{set_running, set_finished}
use cosidia.Core.ActionList.{insert_handler}
use cosidia.Prelude.{◌≤ℤ◌}
use cosidia.Kernel.{System}
use cosidia.Kernel.Shutdown.{
  starting, ended, flagged, Closing, launched, joining, joined, finish, notifies, turn, tests, Run,
  steps, stays, Step, notify, test,
}
use cosidia.Kernel.Shutdown.Joined
use cosidia.Kernel.Shutdown.Joined.{pending}
use cosidia.Start.Simulation.{set_up_simulation}
use cosidia.Start.Threads.{setup}
use cosidia.Start.Threads.Launched
use cosidia.Start.Threads.Launched.{count_from, workers}
use cosidia.Tests.World.{world}

-- A simulation with one worker that has not begun to wait when it is notified.
abbrev notified : Closing
notified = record { is_finished = true; phase = joining; workers = starting ∷ [] }

abbrev flagged_now : Closing
flagged_now = record (launched 1) { is_finished = true; phase = flagged }

abbrev gone : Closing
gone = record notified { workers = ended ∷ [] }

to_notified : Run 2 (launched 1) notified
unfolding notify
to_notified =
    steps 1 (launched 1) flagged_now notified (finish (launched 1) refl)
      (steps 0 flagged_now notified notified (notifies flagged_now refl) (stays notified))

to_gone : Run 1 notified gone
unfolding test
to_gone =
    steps 0 notified gone gone (turn notified (ended ∷ []) (tests starting [] refl)) (stays gone)

threads_joined_example :
    (1 ≤ pending (starting ∷ []) + 1)
    × (((joining ≡ joined) × All (λ w. w ≡ ended) (ended ∷ [])) ⊎ ((u : Closing) × Step gone u))
threads_joined_example = Joined.threads_joined 1 2 notified to_notified refl 1 gone to_gone

-- The world before anything has happened.
abbrev early : System (Unit {0})
early = record world { core = record world.core { current_action_time = pos 0; handlers = [] } }

abbrev after_run : Result (Unit {0} × System (Unit {0})) → System (Unit {0})
after_run (ok (_, s)) = s
after_run (err e) = early

abbrev set_up : System (Unit {0})
set_up = after_run (set_up_simulation 50 none early)

set_up-eq : set_up_simulation 50 none early ≡ ok (tt, set_up)
unfolding set_up_simulation get_next_object_id get_simulation_starter_objects add_unique_object
    is_initialized Set.insert add_unique insert_unique find_name find make_action create zero_time
    schedule_start_handler set_running set_finished schedule_action insert_handler get_time
    at_second add_to_object_container Container.get_next_object_id insert_object ◌*ℤ◌ ◌+ℤ◌ update_at
set_up-eq = refl

setup_threads_example :
    (setup 40 8 50 none early ≡ ok (1 ∷ 2 ∷ 3 ∷ 4 ∷ 5 ∷ 6 ∷ [], set_up))
    × (6 ≤ 30)
    × ((◌≡◌ {A = ℕ} 6 0) ⊎ (6 + 2 ≤ 8))
unfolding count_from
setup_threads_example =
    Launched.setup_threads 50 none 40 8 early set_up (omega arith) (omega arith) set_up-eq

-- Twice as fast as real time.
abbrev twice : Duration → Duration
twice d = pos 2 *ℤ d

-- Ten nanoseconds after the start, the clock is asked to wait for the simulated time 50.
wait_overshoots_example :
    (d : Duration) × (c' : SteadyClock) × (t : TimePoint) × (get_duration_until twice twice
        (pos 10)
        (pos 50)
        (new_clock (pos 0))
      ≡ ok (d, c'))
    × (get_sim_time_now twice twice (pos 10 +ℤ d) c' ≡ t)
    × (t ≡ twice (pos 10 -ℤ pos 0) +ℤ twice (twice (pos 50 -ℤ twice (pos 10 -ℤ pos 0))))
    × (pos 50 ≤ℤ t)
    × ((t ≡ pos 50) ↔ (◌≡◌ {A = ℕ} 2 1))
unfolding ◌*ℤ◌ ◌-ℤ◌
wait_overshoots_example =
    Overshoot.wait_overshoots twice twice 2 (pos 10) (pos 50) (new_clock (pos 0)) (omega arith)
      (omega arith) (omega arith) refl refl refl

-- A queue is its number of contexts, and a context that is stolen is one of those.
abbrev counted : Queues ℕ ℕ
counted = record {
  push = λ ctx q. suc q;
  pop = λ q. elim q [ zero ↦ (none, zero) | suc n ↦ (some n, n) ];
  steal = λ q. elim q [ zero ↦ (none, zero) | suc n ↦ (some n, n) ];
}

abbrev two : Schedulers ℕ
two = record { queues = λ i. i; flags = λ i. true }

pick_next-ends_example :
    (victim : Option ℕ) × (s' : Schedulers ℕ) × (pick_next counted 2 (λ n. 1) 3 0 two
      ≡ ok (victim, s'))
    × ((◌≡◌ {A = Option ℕ} none none) ⊎ (victim ≡ none))
pick_next-ends_example =
    Ends.pick_next-ends counted 2 (λ n. 1) 3 0 two (λ n e. omega arith) (omega arith)

pick_next-lone_example : pick_next counted 1 (λ n. 0) 7 0 two ≡ err no_fuel
pick_next-lone_example = Ends.pick_next-lone counted 1 (λ n. 0) 7 0 two refl (λ n. refl)
