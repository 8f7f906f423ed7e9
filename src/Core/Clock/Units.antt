-- ===== src/Core/Clock/Units.antt =====
-- The units of src/core/SteadyClock.hpp.
use cosidia.Prelude.{
  ℤ, pos, negsuc, pos_part, neg_part, ◌*ℤ◌, ◌-ℤ◌, ◌<ℤ◌, eq_of_parts, ℕ, ◌*◌, ◌≡◌, refl, arith,
}
use cosidia.Core.Clock.{
  at_second, at_millisecond, at_microsecond, at_nanosecond, invalid, zero_time, get_milliseconds,
}

scale_parts :
    (a : ℤ) (k : ℕ)
    → (pos_part (a *ℤ pos k) ≡ pos_part a * k) × (neg_part (a *ℤ pos k) ≡ neg_part a * k)
unfolding ◌*ℤ◌
scale_parts (pos n) k = ground arith
scale_parts (negsuc n) k = ground arith

-- A time point that is given in milliseconds is read back unchanged, before the epoch too.
pub get_milliseconds-at_millisecond : (m : ℤ) → get_milliseconds (at_millisecond m) ≡ m
unfolding get_milliseconds at_millisecond ◌*ℤ◌ ◌-ℤ◌
get_milliseconds-at_millisecond (pos n) = ground arith
get_milliseconds-at_millisecond (negsuc n) = ground arith

-- The units agree: a second is a thousand milliseconds, a millisecond a thousand microseconds, and
-- a microsecond a thousand nanoseconds.
pub units_agree :
    (n : ℤ)
    → (at_second n ≡ at_millisecond (n *ℤ pos 1000))
      × (at_millisecond n ≡ at_microsecond (n *ℤ pos 1000))
      × (at_microsecond n ≡ at_nanosecond (n *ℤ pos 1000))
unfolding at_second at_millisecond at_microsecond at_nanosecond
units_agree n = (
  eq_of_parts _ _ (
      omega (
        arith,
        scale_parts n 1_000_000_000,
        scale_parts n 1000,
        scale_parts (n *ℤ pos 1000) 1_000_000,
      )),
  eq_of_parts _ _ (
      omega (arith, scale_parts n 1_000_000, scale_parts n 1000, scale_parts (n *ℤ pos 1000) 1000)),
  refl,
)

-- The mark for an empty action list lies before every time point that an action may start at.
pub invalid-lt-zero_time : invalid <ℤ zero_time
unfolding invalid zero_time at_second ◌*ℤ◌
invalid-lt-zero_time = omega arith
