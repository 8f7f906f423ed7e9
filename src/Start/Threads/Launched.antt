-- ===== src/Start/Threads/Launched.antt =====
-- How many worker threads src/core/Core.cpp launches.
use cosidia.Prelude.{
  pos, ◌-ℤ◌, ltb_ℤ, ℕ, zero, suc, ◌+◌, ◌-◌, ◌%◌, ◌≤◌, ◌<◌, ◌≡◌, refl, arith, List, [], ◌∷◌, Option,
  String, if◌then◌else◌, ltb,
}
use cosidia.Prelude.{◌==◌, ◌⊎◌, inl, inr}
use native.Mathlib.Decide.{dec_lt}
use cosidia.Prelude.Result.{Result}
use cosidia.Prelude.Result.{ok, err, runtime_error, no_fuel}
use cosidia.Start.Threads.{launch_from, launch_workers, to_unsigned, setup}
use cosidia.Core.Action.{Ref}
use cosidia.Kernel.{System}
use cosidia.Start.Simulation.{set_up_simulation}

-- `k` numbers from `x` on.
unfoldable pub count_from : ℕ → ℕ → List ℕ
count_from x zero = []
count_from x (suc k) = x ∷ count_from (x + 1) k

-- No unsigned is above the greatest one.
launch_from-forever :
    (fuel x : ℕ) → x < 4_294_967_296 → launch_from fuel 4_294_967_295 x ≡ err no_fuel
unfolding launch_from
launch_from-forever zero x h = refl
launch_from-forever (suc fuel) x h =
    ground (arith, launch_from-forever fuel ((x + 1) % 4_294_967_296) (omega arith))

launch_from-counts :
    (k fuel limit x : ℕ)
    → limit < 4_294_967_295
    → x + k ≡ limit + 1
    → k < fuel
    → launch_from fuel limit x ≡ ok (count_from x k)
unfolding launch_from count_from
launch_from-counts k zero limit x h e f = absurd (omega arith)
launch_from-counts zero (suc fuel) limit x h e f = ground arith
launch_from-counts (suc k) (suc fuel) limit x h e f =
    let next : (x + 1) % 4_294_967_296 ≡ x + 1 = omega arith in
    ground (arith, next, launch_from-counts k fuel limit (x + 1) h (omega arith) (omega arith))

abbrev pub workers : ℕ → ℕ
workers detected = if ltb 32 detected then 30 else detected - 2

worker_threads :
    (detected : ℕ)
    → 2 ≤ detected
    → to_unsigned (if ltb_ℤ (pos 30) (pos detected -ℤ pos 2) then pos 30 else pos detected -ℤ pos 2)
      ≡ workers detected
unfolding to_unsigned ◌-ℤ◌
worker_threads detected h = ground arith

-- What the setup does on a number of processors, if setting up the simulation leaves `t`.
abbrev pub outcome : {X : Type 0} → (detected : ℕ) → System X → Result (List ℕ × System X)
outcome detected t =
    if detected == 0
    then err (runtime_error "Could not detect number of cores")
    else if detected == 1
    then err no_fuel
    else ok (count_from 1 (workers detected), t)

-- On fewer than 2^31 processors, where the simulation is set up with no error, the setup does as
-- follows with fuel for 32 rounds or more. With no detected processor it throws. With one its loop
-- uses up all fuel, however much it is: the number of workers is -1, which is compared as the
-- greatest unsigned. Otherwise the threads 1, 2, ... are launched, two fewer than processors and at
-- most 30, and what setting up the simulation leaves is left.
pub setup_threads :
    {X : Type 0} (free : Ref) (model : Option String) (fuel detected : ℕ) (s t : System X)
    → detected < 2_147_483_648
    → 32 ≤ fuel
    → set_up_simulation free model s ≡ ok (tt, t)
    → (setup fuel detected free model s ≡ outcome detected t)
      × (workers detected ≤ 30)
      × ((workers detected ≡ 0) ⊎ (workers detected + 2 ≤ detected))
unfolding launch_workers setup
setup_threads free model fuel detected s t small f e = (
  ground (
    arith,
    e,
    worker_threads detected,
    launch_from-forever fuel 1,
    launch_from-counts (workers detected) fuel (workers detected) 1,
  ),
  ground arith,
  elim (dec_lt 2 detected) [ yes h ↦ inr (ground arith) | no h ↦ inl (ground arith) ],
)
