-- ===== src/Core/SteadyClock/Overshoot.antt =====
-- How the clock of src/core/SteadyClock.cpp waits.
use cosidia.Prelude.{
  ℤ, pos, ◌+ℤ◌, ◌-ℤ◌, ◌*ℤ◌, ◌≤ℤ◌, +ℤ_parts, eq_of_parts, int_laws, pos_part, neg_part, ℕ, ◌+◌, ◌*◌,
  ◌≡◌, refl, arith, ap, ◌∙◌, subst, sym, ◌<◌, ◌<ℤ◌,
}
use cosidia.Prelude.{◌↔◌, ◌≤◌}
use native.Mathlib.Decide.{dec_lt}
use cosidia.Prelude.Result.{ok}
use cosidia.Core.Clock.{TimePoint, Duration}
use cosidia.Core.SteadyClock.{SteadyClock, get_sim_time_now, get_duration_until}

-- A whole multiple of an integer, in parts.
*ℤ_parts :
    (k : ℕ) (a : ℤ)
    → pos_part (pos k *ℤ a) + k * neg_part a ≡ neg_part (pos k *ℤ a) + k * pos_part a
unfolding ◌*ℤ◌
*ℤ_parts k (ℤ.pos n) = ground arith
*ℤ_parts k (ℤ.negsuc n) = ground arith

*ℤ-add : (k : ℕ) (a b : ℤ) → pos k *ℤ (a +ℤ b) ≡ pos k *ℤ a +ℤ pos k *ℤ b
*ℤ-add k a b = eq_of_parts (pos k *ℤ (a +ℤ b)) (pos k *ℤ a +ℤ pos k *ℤ b) (
    omega (
      arith,
      *ℤ_parts k (a +ℤ b),
      *ℤ_parts k a,
      *ℤ_parts k b,
      +ℤ_parts (pos k *ℤ a) (pos k *ℤ b),
      ap (λ (t : ℕ). k * t) (+ℤ_parts a b),
    ))

moved : (now start d : ℤ) → (now +ℤ d) -ℤ start ≡ (now -ℤ start) +ℤ d
moved now start d = omega int_laws

*ℤ-one : (a : ℤ) → pos 1 *ℤ a ≡ a
*ℤ-one a = eq_of_parts (pos 1 *ℤ a) a (omega (arith, *ℤ_parts 1 a))

lt-*ℤ : (k : ℕ) (a : ℤ) → 1 < k → pos 0 <ℤ a → a <ℤ pos k *ℤ a
unfolding ◌*ℤ◌
lt-*ℤ k (ℤ.pos n) h p = grind arith
lt-*ℤ k (ℤ.negsuc n) h p = absurd (omega arith)

reaches : (sim until : ℤ) → sim +ℤ (until -ℤ sim) ≡ until
reaches sim until = omega int_laws

passes : (sim until x : ℤ) → until -ℤ sim <ℤ x → until <ℤ sim +ℤ x
passes sim until x h = omega int_laws

is_ahead : (sim until : ℤ) → sim <ℤ until → pos 0 <ℤ until -ℤ sim
is_ahead sim until h = omega int_laws

not_self : (a : ℤ) → a <ℤ a → ⊥
not_self a h = omega arith

late_by :
    (k : ℕ) (sim until : ℤ)
    → 1 ≤ k
    → sim <ℤ until
    → (until ≤ℤ sim +ℤ pos k *ℤ (pos k *ℤ (until -ℤ sim)))
      × ((sim +ℤ pos k *ℤ (pos k *ℤ (until -ℤ sim)) ≡ until) ↔ (k ≡ 1))
late_by k sim until h ahead = elim (dec_lt 1 k) [
  | yes fast ↦
      let d = until -ℤ sim in
      let positive = is_ahead sim until ahead in
      let first = lt-*ℤ k d fast positive in
      let second = lt-*ℤ k (pos k *ℤ d) fast (omega (arith, first, positive)) in
      let past = passes sim until (pos k *ℤ (pos k *ℤ d)) (omega (arith, first, second)) in
      (
        omega (arith, past),
        (
          λ e. absurd (not_self until (subst (λ x. until <ℤ x) e past)),
          λ one. absurd (omega arith),
        ),
      )
  | no slow ↦
      let one : k ≡ 1 = omega arith in
      let hit : sim +ℤ pos k *ℤ (pos k *ℤ (until -ℤ sim)) ≡ until =
        rw (one, *ℤ-one (pos 1 *ℤ (until -ℤ sim)), *ℤ-one (until -ℤ sim)) (reaches sim until) in
      (subst (λ x. until ≤ℤ x) (sym hit) (omega arith), (λ e. one, λ e. hit))
]

module _ (times_speed by_speed : Duration → Duration) (k : ℕ) (now until : ℤ)
    (c : SteadyClock) where
  -- The simulated time at the call, and how far the awaited time is ahead of it.
  abbrev pub present_time : TimePoint
  present_time = times_speed (now -ℤ c.start_time)

  abbrev pub distance : Duration
  distance = until -ℤ present_time

  -- Where the clock does not go back, the awaited time lies ahead, and the speed is a whole number
  -- `k` that is not zero and with which the products that are taken are exact, getDurationUntil
  -- returns a wait at whose end the simulated time has advanced by k^2 times the distance to the
  -- awaited time. That is not before the awaited time, and just at it only where k is 1.
  pub wait_overshoots :
      c.sim_time ≤ℤ present_time
      → present_time <ℤ until
      → 1 ≤ k
      → present_time ≡ pos k *ℤ (now -ℤ c.start_time)
      → times_speed distance ≡ pos k *ℤ distance
      → times_speed ((now +ℤ times_speed distance) -ℤ c.start_time)
        ≡ pos k *ℤ ((now +ℤ times_speed distance) -ℤ c.start_time)
      → (d : Duration) × (c' : SteadyClock) × (t : TimePoint) × (get_duration_until times_speed
            by_speed now until c
          ≡ ok (d, c'))
        × (get_sim_time_now times_speed by_speed (now +ℤ d) c' ≡ t)
        × (t ≡ present_time +ℤ pos k *ℤ (pos k *ℤ distance))
        × (until ≤ℤ t)
        × ((t ≡ until) ↔ (k ≡ 1))
  unfolding get_duration_until get_sim_time_now
  wait_overshoots h ahead some_speed p q r =
      let at_end : times_speed ((now +ℤ times_speed distance) -ℤ c.start_time)
          ≡ present_time +ℤ pos k *ℤ (pos k *ℤ distance) =
        r
        ∙ ap (λ x. pos k *ℤ x) (moved now c.start_time (times_speed distance))
        ∙ *ℤ-add k (now -ℤ c.start_time) (times_speed distance)
        ∙ rw (← p, q) refl in
      let (late, exact) = late_by k present_time until some_speed ahead in
      (
        times_speed distance,
        record c { sim_time = present_time },
        times_speed ((now +ℤ times_speed distance) -ℤ c.start_time),
        ground arith,
        refl,
        at_end,
        subst (λ x. until ≤ℤ x) (sym at_end) late,
        (λ e. exact.0 (sym at_end ∙ e), λ one. at_end ∙ exact.1 one),
      )
