-- ===== src/Output/Backend/Conserved.antt =====
-- What becomes of the tasks that src/output/SqliteBackend.cpp is given.
use cosidia.Prelude.{◌≡◌, refl, sym, ap, ◌∙◌, subst, List, [], ◌∷◌, ◌++◌, ℕ}
use mathlib.Core.List.{append-nil, append_assoc}
use cosidia.Output.Backend.{
  Backend, new_backend, Phase, at_condition, waits, writes, finished, record_timing, stop, Step,
  records, stops, continues, leaves, wakes, commits, Reach, stays, steps,
}

-- The tasks that the consumer has swapped out and not written.
abbrev pub in_hand : {Task : Type 0} → Phase Task → List Task
in_hand at_condition = []
in_hand waits = []
in_hand (writes tasks) = tasks
in_hand finished = []

module _ {Task : Type 0} where
  -- What is written, in hand and queued is what was recorded, in order.
  abbrev pub IsConserved : Backend Task → Type 0
  IsConserved b = b.table ++ (in_hand b.phase ++ b.queue) ≡ b.recorded

  Step-IsConserved : (a b : Backend Task) → Step a b → IsConserved a → IsConserved b
  unfolding record_timing stop
  Step-IsConserved a b (records capacity task c) h =
      ap (◌++◌ c.table) (sym (append_assoc (in_hand c.phase) c.queue (task ∷ [])))
      ∙ sym (append_assoc c.table (in_hand c.phase ++ c.queue) (task ∷ []))
      ∙ ap (λ r. r ++ task ∷ []) h
  Step-IsConserved a b (stops c) h = h
  Step-IsConserved a b (continues c p r) h =
      subst (λ q. c.table ++ (in_hand q ++ c.queue) ≡ c.recorded) p h
  Step-IsConserved a b (leaves c p r) h =
      subst (λ q. c.table ++ (in_hand q ++ c.queue) ≡ c.recorded) p h
  Step-IsConserved a b (wakes c p w) h =
      ap (◌++◌ c.table) (append-nil c.queue)
      ∙ subst (λ q. c.table ++ (in_hand q ++ c.queue) ≡ c.recorded) p h
  Step-IsConserved a b (commits c tasks p) h =
      append_assoc c.table tasks c.queue
      ∙ subst (λ q. c.table ++ (in_hand q ++ c.queue) ≡ c.recorded) p h

  Reach-IsConserved : (a b : Backend Task) → Reach a b → IsConserved a → IsConserved b
  Reach-IsConserved a b (stays c) h = h
  Reach-IsConserved a b (steps c d e r s) h = Step-IsConserved d e s (Reach-IsConserved c d r h)

  -- However the threads interleave from the start, the table, then what the consumer has in hand and
  -- then the queue are what was recorded, in order: nothing is written twice, out of order, or
  -- dropped on the way.
  pub reachable-IsConserved : (b : Backend Task) → Reach new_backend b → IsConserved b
  reachable-IsConserved b r = Reach-IsConserved new_backend b r refl

  -- In every run, as often as the consumer is back at its condition: a task that is then recorded
  -- is lost if the destructor follows before the condition is tested. The consumer finishes, the
  -- table is what it was before, and the task is still in the queue.
  pub task_lost :
      (capacity : ℕ) (task : Task) (b : Backend Task)
      → Reach new_backend b
      → b.phase ≡ at_condition
      → (b' : Backend Task) × Reach new_backend b'
        × (b'.phase ≡ finished)
        × (b'.recorded ≡ b.recorded ++ task ∷ [])
        × (b'.queue ≡ b.queue ++ task ∷ [])
        × (b'.table ≡ b.table)
  unfolding record_timing stop
  task_lost capacity task b r p =
      let b1 = (record_timing capacity task b).0 in
      let b2 = stop b1 in
      let recorded = steps new_backend b b1 r (records capacity task b) in
      let stopped = steps new_backend b1 b2 recorded (stops b1) in
      (
        record b2 { phase = finished },
        steps new_backend b2 (record b2 { phase = finished }) stopped (leaves b2 p refl),
        refl,
        refl,
        refl,
        refl,
      )
