-- ===== src/Radio/MediumAccess/Ends.antt =====
-- The long operation of src/radio/MediumAccess.cpp ends and does not overflow.
use cosidia.Prelude.{
  ltb, ℕ, zero, suc, ◌+◌, ◌*◌, ◌^◌, ◌≤◌, ◌<◌, ◌≡◌, arith, Option, none, Bool-cases, inl, inr, ap,
  ◌∙◌,
}
use cosidia.Prelude.Result.{ok}
use cosidia.Core.Action.{Ref}
use cosidia.Kernel.{System, ◌>>◌}
use cosidia.Radio.MediumAccess.{add_int, execute_from, execute_long_operation, medium_access}

regroup : (x p : ℕ) → (x + x + 1 + 1) * p ≡ (x + 1) * (2 * p)
regroup x p = grind arith

doubled : (x k : ℕ) → (x + x + 1 + 1) * 2 ^ k ≡ (x + 1) * 2 ^ suc k
doubled x k = regroup x (2 ^ k) ∙ ap (λ (p : ℕ). (x + 1) * p) (omega arith)

execute_from-ends :
    (k fuel x : ℕ) → 1_000_000_000 < (x + 1) * 2 ^ k → k < fuel → execute_from fuel x ≡ ok 42
unfolding execute_from add_int
execute_from-ends k zero x h f = absurd (omega arith)
execute_from-ends zero (suc fuel) x h f = ground arith
execute_from-ends (suc k) (suc fuel) x h f = elim (Bool-cases (ltb x 1_000_000_000)) [
  | inl small ↦
      ground (arith, small, execute_from-ends k fuel (x + x + 1) (rw (doubled x k) h) (omega arith))
  | inr big ↦ ground (arith, big)
]

-- From any number on, 31 rounds are enough for the loop, and no sum overflows. So a start of the
-- object followed by an end, of whatever actions and in whatever state, throws nothing and leaves
-- no future behind.
pub long_operation_ends :
    ((fuel x : ℕ) → 31 ≤ fuel → execute_from fuel x ≡ ok 42)
    × ((o a p b : Ref) (s : System (Option ℕ))
        → (medium_access.start_execution o a >> medium_access.end_execution p b) s
          ≡ ok (tt, record s { model = none }))
unfolding medium_access execute_long_operation
long_operation_ends = (
  λ fuel x h. execute_from-ends 30 fuel x (omega arith) (omega arith),
  λ o a p b s. ground (arith, execute_from-ends 30 31 0),
)
