-- ===== src/Radio/MediumAccess.antt =====
-- src/radio/MediumAccess.cpp. An `int` has 32 bits, and its overflow is undefined. The behaviour's
-- state is the future.
pub mod Ends
use cosidia.Prelude.{ltb, ℕ, zero, suc, ◌+◌, true, false, Option, none, some}
use cosidia.Prelude.Result.{Result, ok, err, undefined, no_fuel, get_future}
use cosidia.Prelude.Result
use cosidia.Core.Action.{Ref}
use cosidia.Kernel.{M, pure, get, put, lift, ◌>>=◌}
use cosidia.Kernel.Execution.{Behaviour}

-- A sum of two numbers that are not negative.
unfoldable pub add_int : ℕ → ℕ → Result ℕ
add_int a b = elim (ltb (a + b) 2_147_483_648) [ true ↦ ok (a + b) | false ↦ err undefined ]

-- The loop on fuel, from `x` on.
unfoldable pub execute_from : (fuel x : ℕ) → Result ℕ
unfolding add_int
execute_from zero x = err no_fuel
execute_from (suc fuel) x = elim (ltb x 1_000_000_000) [
  | false ↦ ok 42
  | true ↦ Result.◌>>=◌ (add_int x x) (λ y. Result.◌>>=◌ (add_int y 1) (λ z. execute_from fuel z))
]

-- 31 rounds are enough.
unfoldable pub execute_long_operation : Result ℕ
unfolding execute_from
execute_long_operation = execute_from 31 0

-- The state is the future. Printing is left out.
medium_start_execution : Ref → Ref → M (Option ℕ) (Unit {0})
unfolding execute_long_operation
medium_start_execution o a = do
  result ← lift execute_long_operation
  s ← get
  put (record s { model = some result })

medium_end_execution : Ref → Ref → M (Option ℕ) (Unit {0})
medium_end_execution o a = do
  s ← get
  result ← lift (get_future s.model)
  put (record s { model = none })

unfoldable pub medium_access : Behaviour (Option ℕ)
unfolding medium_start_execution medium_end_execution
medium_access = record {
  start_execution = medium_start_execution;
  end_execution = medium_end_execution;
  init_object = λ o a. pure tt;
}
