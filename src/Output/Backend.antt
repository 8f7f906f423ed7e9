-- ===== src/Output/Backend.antt =====
-- src/output/SqliteBackend.cpp. The simulation's threads record tasks, a consumer thread writes them:
-- a step of the relation is what one thread does between two points where the other may come in.
-- `Task` is a RecordTask; to run it and its statement is to write it. `recorded` lists what was
-- recorded so far, which the code does not keep.
pub mod Conserved
use cosidia.Prelude.{ltb, ℕ, ◌/◌, ◌≡◌, ◌≢◌, ◌⊎◌, Bool, true, false, List, [], ◌∷◌, ◌++◌, length}

-- Where the consumer stands in its loop: at the condition, waiting for the queue, with the
-- tasks that it has swapped out, or behind the loop.
pub data Phase (Task : Type 0) : Type 0 where
  at_condition : Phase Task
  waits : Phase Task
  writes : List Task → Phase Task
  finished : Phase Task

pub record Backend (Task : Type 0) : Type 0 where
  pub queue : List Task
  pub consumer_running : Bool
  pub table : List Task
  pub phase : Phase Task
  pub recorded : List Task

-- The constructor.
abbrev pub new_backend : {Task : Type 0} → Backend Task
new_backend = record {
  queue = [];
  consumer_running = true;
  table = [];
  phase = at_condition;
  recorded = [];
}

module _ {Task : Type 0} where
  -- recordTiming with mutual exclusion: the new state, and whether the consumer is notified.
  -- `capacity` is what std::vector::capacity returns.
  unfoldable pub record_timing : (capacity : ℕ) → Task → Backend Task → Backend Task × Bool
  record_timing capacity task b =
      let queue = b.queue ++ task ∷ [] in
      (
        record b { queue = queue; recorded = b.recorded ++ task ∷ [] },
        ltb (capacity / 2) (length queue),
      )

  -- What the destructor does before it joins the consumer.
  unfoldable pub stop : Backend Task → Backend Task
  stop b = record b { consumer_running = false }

  pub data Step : Backend Task → Backend Task → Type 0 where
    records :
        (capacity : ℕ) (task : Task) (b : Backend Task) → Step b (record_timing capacity task b).0
    stops : (b : Backend Task) → Step b (stop b)
    -- the condition of the loop
    continues :
        (b : Backend Task)
        → b.phase ≡ at_condition
        → b.consumer_running ≡ true
        → Step b (record b { phase = waits })
    leaves :
        (b : Backend Task)
        → b.phase ≡ at_condition
        → b.consumer_running ≡ false
        → Step b (record b { phase = finished })
    -- the wait returns, and the queues are swapped
    wakes :
        (b : Backend Task)
        → b.phase ≡ waits
        → (b.queue ≢ []) ⊎ (b.consumer_running ≡ false)
        → Step b (record b { phase = writes b.queue; queue = [] })
    commits :
        (b : Backend Task) (tasks : List Task)
        → b.phase ≡ writes tasks
        → Step b (record b { phase = at_condition; table = b.table ++ tasks })

  pub data Reach : Backend Task → Backend Task → Type 0 where
    stays : (b : Backend Task) → Reach b b
    steps : (a b c : Backend Task) → Reach a b → Step b c → Reach a c
