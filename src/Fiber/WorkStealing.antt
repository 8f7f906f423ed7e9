-- ===== src/Fiber/WorkStealing.antt =====
-- src/fiber/customWorkStealing.cpp. Boost's queue of ready contexts is the parameter `Q`, and a draw
-- of the random generator is given by its number. Attaching and detaching a context are Boost's,
-- and left out. No thread interferes between the calls.
pub mod Ends
use cosidia.Prelude.{
  ltb, ℕ, zero, suc, ◌+◌, ◌==◌, Bool, true, false, Option, none, some, if◌then◌else◌,
}
use cosidia.Prelude.Result.{Result, ok, err, no_fuel, ◌>>=◌}

-- The operations of the queue; pop and steal return the null pointer where they find nothing.
pub record Queues (Q Context : Type 0) : Type 0 where
  pub push : Context → Q → Q
  pub pop : Q → Option Context × Q
  pub steal : Q → Option Context × Q

-- The queues of the schedulers, by their ids, and the flags that `suspend_until` waits for.
pub record Schedulers (Q : Type 0) : Type 0 where
  pub queues : ℕ → Q
  pub flags : ℕ → Bool

module _ {Q Context : Type 0} (ops : Queues Q Context) (size : ℕ) (draw : ℕ → ℕ) where
  abbrev pub set_queue : ℕ → Q → Schedulers Q → Schedulers Q
  set_queue id q s = record s { queues = λ i. if i == id then q else s.queues i }

  unfoldable pub awakened : ℕ → Context → Schedulers Q → Schedulers Q
  awakened id ctx s = set_queue id (ops.push ctx (s.queues id)) s

  -- The inner loop on fuel: the id of another scheduler, and the number of draws so far.
  unfoldable pub draw_other : (fuel id count : ℕ) → Result (ℕ × ℕ)
  draw_other zero id count = err no_fuel
  draw_other (suc fuel) id count = elim (draw count == id) [
    | false ↦ ok (draw count, count + 1)
    | true ↦ draw_other fuel id (count + 1)
  ]

  -- The outer loop on fuel.
  unfoldable pub steal_from_others :
      (fuel id count : ℕ) → Schedulers Q → Result (Option Context × Schedulers Q)
  unfolding draw_other
  steal_from_others zero id count s = err no_fuel
  steal_from_others (suc fuel) id count s = draw_other (suc fuel) id count >>= λ (other, count').
      let (victim, q) = ops.steal (s.queues other) in
      let s' = set_queue other q s in
      elim victim [
        | some ctx ↦ ok (some ctx, s')
        | none ↦ elim (ltb count' size) [
          | false ↦ ok (none, s')
          | true ↦ steal_from_others fuel id count' s'
        ]
      ]

  unfoldable pub pick_next : (fuel id : ℕ) → Schedulers Q → Result (Option Context × Schedulers Q)
  unfolding steal_from_others
  pick_next fuel id s =
      let (victim, q) = ops.pop (s.queues id) in
      let s' = set_queue id q s in
      elim victim [ some ctx ↦ ok (some ctx, s') | none ↦ steal_from_others fuel id 0 s' ]

  -- `suspends` is the constructor's argument.
  unfoldable pub notify : (suspends : Bool) → ℕ → Schedulers Q → Schedulers Q
  notify suspends id s =
      if suspends then record s { flags = λ i. if i == id then true else s.flags i } else s

  -- After the wait for the flag, or for the time point.
  unfoldable pub suspend_until : (suspends : Bool) → ℕ → Schedulers Q → Schedulers Q
  suspend_until suspends id s =
      if suspends then record s { flags = λ i. if i == id then false else s.flags i } else s
