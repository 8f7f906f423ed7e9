-- ===== src/Kernel/Shutdown.antt =====
-- startThread and finishSimulation of src/core/Core.cpp: the end of the simulation between the core's
-- thread and its workers, which wait on a condition variable. A step of the relation is what one
-- thread does between two points where another may come in: the test of the condition and the start
-- of the wait are one step, since the mutex is held over both, and the flag is set under it. A wait
-- may also return without a notification, as the condition variable allows.
pub mod Joined
use cosidia.Prelude.{ℕ, zero, suc, ◌≡◌, Bool, true, false, List, [], ◌∷◌, map, All}

-- A worker before it has locked the mutex, in its wait, behind a return of the wait where it has to
-- lock the mutex again, and at its end.
pub data Worker : Type 0 where
  starting sleeping woken ended : Worker

-- Core's thread: in the event loop, with mIsFinished set, after notify_all, and with all threads joined.
pub data Phase : Type 0 where
  looping flagged joining joined : Phase

pub record Closing : Type 0 where
  pub is_finished : Bool
  pub phase : Phase
  pub workers : List Worker

abbrev pub replicate : ℕ → List Worker
replicate zero = []
replicate (suc n) = starting ∷ replicate n

-- `n` workers are launched.
abbrev pub launched : ℕ → Closing
launched n = record { is_finished = false; phase = looping; workers = replicate n }

-- mConditionClose.wait(lk, [this](){ return this->mIsFinished; }), with the mutex held.
unfoldable pub test : Bool → Worker
test true = ended
test false = sleeping

-- notify_all
unfoldable pub notify : Worker → Worker
notify sleeping = woken
notify w = w

abbrev pub may_test : Worker → Bool
may_test starting = true
may_test woken = true
may_test sleeping = false
may_test ended = false

-- One of the workers goes on.
pub data Turn (is_finished : Bool) : List Worker → List Worker → Type 0 where
  tests :
      (w : Worker) (ws : List Worker)
      → may_test w ≡ true
      → Turn is_finished (w ∷ ws) (test is_finished ∷ ws)
  returns : (w : Worker) (ws : List Worker) → w ≡ sleeping → Turn is_finished (w ∷ ws) (woken ∷ ws)
  other :
      (w : Worker) (ws ws' : List Worker)
      → Turn is_finished ws ws'
      → Turn is_finished (w ∷ ws) (w ∷ ws')

pub data Step : Closing → Closing → Type 0 where
  turn :
      (s : Closing) (ws : List Worker)
      → Turn s.is_finished s.workers ws
      → Step s (record s { workers = ws })
  finish :
      (s : Closing) → s.phase ≡ looping → Step s (record s { is_finished = true; phase = flagged })
  notifies :
      (s : Closing)
      → s.phase ≡ flagged
      → Step s (record s { phase = joining; workers = map notify s.workers })
  joins :
      (s : Closing)
      → s.phase ≡ joining
      → All (λ w. w ≡ ended) s.workers
      → Step s (record s { phase = joined })

-- Runs of `k` steps.
pub data Run : ℕ → Closing → Closing → Type 0 where
  stays : (s : Closing) → Run zero s s
  steps : (k : ℕ) (s t u : Closing) → Step s t → Run k t u → Run (suc k) s u
