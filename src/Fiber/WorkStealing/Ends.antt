-- ===== src/Fiber/WorkStealing/Ends.antt =====
-- When the search for work in src/fiber/customWorkStealing.cpp ends.
use cosidia.Prelude.{
  ltb, ℕ, zero, suc, ◌+◌, ◌<◌, ◌≡◌, ◌≢◌, ◌⊎◌, sym, refl, Option, none, some, arith, Option-cases,
  Bool-cases, inl, inr,
}
use cosidia.Prelude.Result.{ok, err, no_fuel}
use cosidia.Fiber.WorkStealing.{
  Queues, Schedulers, set_queue, draw_other, steal_from_others, pick_next,
}

module _ {Q Context : Type 0} (ops : Queues Q Context) (size : ℕ) (draw : ℕ → ℕ) where
  draw_other-forever :
      (fuel id count : ℕ)
      → ((n : ℕ) → draw n ≡ id)
      → draw_other ops size draw fuel id count ≡ err no_fuel
  unfolding draw_other
  draw_other-forever zero id count h = refl
  draw_other-forever (suc fuel) id count h =
      ground (arith, h count, draw_other-forever fuel id (count + 1) h)

  draw_other-eq :
      (fuel id count : ℕ)
      → draw count ≢ id
      → draw_other ops size draw (suc fuel) id count ≡ ok (draw count, count + 1)
  unfolding draw_other
  draw_other-eq fuel id count h = ground (arith, h)

  steal_from_others-forever :
      (fuel id count : ℕ) (s : Schedulers Q)
      → ((n : ℕ) → draw n ≡ id)
      → steal_from_others ops size draw fuel id count s ≡ err no_fuel
  unfolding steal_from_others
  steal_from_others-forever zero id count s h = refl
  steal_from_others-forever (suc fuel) id count s h = rw (draw_other-forever (suc fuel) id count h)

  steal_from_others-ends :
      (fuel id count : ℕ) (s : Schedulers Q)
      → ((n : ℕ) → draw n ≢ id)
      → size < fuel + count
      → 0 < fuel
      → (victim : Option Context) × (s' : Schedulers Q) × (steal_from_others ops size draw fuel id
            count s
          ≡ ok (victim, s'))
  unfolding steal_from_others
  steal_from_others-ends zero id count s h f p = absurd (omega arith)
  steal_from_others-ends (suc fuel) id count s h f p =
      let other = draw count in
      let (victim, q) = ops.steal (s.queues other) in
      let s1 = set_queue ops size draw other q s in
      elim (Option-cases victim) [
        | inr (ctx, e) ↦ (some ctx, s1, ground (arith, e, h count))
        | inl e ↦ elim (Bool-cases (ltb (count + 1) size)) [
          | inr last ↦ (none, s1, ground (arith, e, h count, last))
          | inl more ↦
              let (v, s', r) =
                steal_from_others-ends fuel id (count + 1) s1 h (omega arith)
                  (ground (arith, more)) in
              (v, s', ground (arith, e, h count, more, r))
        ]
      ]

  -- Where the own queue is empty and every draw is the scheduler's own id, as with one thread, the
  -- search for work runs out of any fuel.
  pub pick_next-lone :
      (fuel id : ℕ) (s : Schedulers Q)
      → (ops.pop (s.queues id)).0 ≡ none
      → ((n : ℕ) → draw n ≡ id)
      → pick_next ops size draw fuel id s ≡ err no_fuel
  unfolding pick_next
  pick_next-lone fuel id s e h =
      let s1 = set_queue ops size draw id (ops.pop (s.queues id)).1 s in
      ground (arith, e, steal_from_others-forever fuel id 0 s1 h)

  -- Where no draw is the scheduler's own id, the search for work ends, whatever the queues hold: fuel
  -- above the number of schedulers is enough. It returns a context where the own queue has one.
  pub pick_next-ends :
      (fuel id : ℕ) (s : Schedulers Q)
      → ((n : ℕ) → draw n ≢ id)
      → size < fuel
      → (victim : Option Context) × (s' : Schedulers Q) × (pick_next ops size draw fuel id s
          ≡ ok (victim, s'))
        × (((ops.pop (s.queues id)).0 ≡ none) ⊎ (victim ≡ (ops.pop (s.queues id)).0))
  unfolding pick_next
  pick_next-ends fuel id s h f =
      let s1 = set_queue ops size draw id (ops.pop (s.queues id)).1 s in
      elim (Option-cases (ops.pop (s.queues id)).0) [
        | inr (ctx, e) ↦ (some ctx, s1, ground (arith, e), inr (sym e))
        | inl e ↦
            let (victim, s', r) =
              steal_from_others-ends fuel id 0 s1 h (omega arith) (omega arith) in
            (victim, s', ground (arith, e, r), inl e)
      ]
