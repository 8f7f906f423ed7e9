-- ===== src/Start/Threads.antt =====
-- Core::setup of src/core/Core.cpp: the worker threads that it launches, and the simulation manager.
-- An `unsigned` has 32 bits. `detected` is what std::thread::hardware_concurrency returns, and a
-- thread is the number that it is given.
pub mod Launched
use cosidia.Prelude.{
  ℤ, pos, negsuc, ◌-ℤ◌, ltb_ℤ, ℕ, zero, suc, ◌+◌, ◌-◌, ◌%◌, leb, ◌==◌, true, false, Option, List,
  [], ◌∷◌, String, if◌then◌else◌,
}
use cosidia.Prelude.Result.{Result, ok, err, runtime_error, no_fuel}
use cosidia.Prelude.Result
use cosidia.Core.Action.{Ref}
use cosidia.Kernel.{M, pure, ◌>>=◌, ◌>>◌, lift}
use cosidia.Start.Simulation.{set_up_simulation}

-- The conversion of an int to an unsigned.
unfoldable pub to_unsigned : ℤ → ℕ
to_unsigned (pos n) = n % 4_294_967_296
to_unsigned (negsuc n) = 4_294_967_295 - n % 4_294_967_296

abbrev min_ℤ : ℤ → ℤ → ℤ
min_ℤ a b = if ltb_ℤ b a then b else a

-- The loop from thread `x` on, with fuel: the comparison converts workerThreads to an unsigned.
unfoldable pub launch_from : (fuel : ℕ) (worker_threads x : ℕ) → Result (List ℕ)
launch_from zero worker_threads x = err no_fuel
launch_from (suc fuel) worker_threads x = elim (leb x worker_threads) [
  | false ↦ ok []
  | true ↦
      Result.◌>>=◌ (launch_from fuel worker_threads ((x + 1) % 4_294_967_296)) (λ xs. ok (x ∷ xs))
]

unfoldable pub launch_workers : (fuel detected : ℕ) → Result (List ℕ)
unfolding to_unsigned ◌-ℤ◌
launch_workers fuel detected =
    if detected == 0
    then err (runtime_error "Could not detect number of cores")
    else launch_from fuel (to_unsigned (min_ℤ (pos detected -ℤ pos 2) (pos 30))) 1

-- `model` and `free` are those of the simulation manager.
unfoldable pub setup : {X : Type 0} → (fuel detected : ℕ) → Ref → Option String → M X (List ℕ)
setup fuel detected free model = do
  threads ← lift (launch_workers fuel detected)
  set_up_simulation free model
  pure threads
