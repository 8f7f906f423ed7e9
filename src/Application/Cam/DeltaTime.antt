-- ===== src/Application/Cam/DeltaTime.antt =====
-- The time stamp of the messages of src/application/InternalCaService.cpp.
use cosidia.Prelude.{
  ℤ, pos, pos_part, neg_part, ◌+ℤ◌, ◌-ℤ◌, ◌*ℤ◌, int_laws, ℕ, ◌+◌, ◌*◌, ◌%◌, ◌/◌, ◌<◌, ◌≡◌, some,
  eq_of_parts, refl, ap, arith,
}
use cosidia.Prelude.Result.{ok}
use cosidia.Core.Clock.{TimePoint, div_trunc, at_millisecond}
use cosidia.Core.UtcTime.{get_utc_start_time}
use cosidia.Networking.Runtime.{convert, utc_its_diff}
use cosidia.Application.Cam.{generation_delta_time, rem_trunc}

-- A time that is not before the epoch is stamped with its whole milliseconds modulo 2^16.
stamp :
    (n : ℕ)
    → rem_trunc (div_trunc (div_trunc (pos n) 1_000) 1_000) 65_536
      ≡ pos (n / 1_000 / 1_000 % 65_536)
unfolding rem_trunc div_trunc
stamp n = refl

later :
    (n k : ℕ)
    → (n + k * 1_000_000) / 1_000 / 1_000 % 65_536 ≡ (n / 1_000 / 1_000 % 65_536 + k) % 65_536
later n k = omega arith

milliseconds : (k : ℕ) → at_millisecond (pos k) ≡ pos (k * 1_000_000)
unfolding at_millisecond ◌*ℤ◌
milliseconds k = ground arith

shifted :
    (u t : ℤ) (n k : ℕ)
    → u +ℤ t -ℤ utc_its_diff ≡ pos n
    → u +ℤ (t +ℤ at_millisecond (pos k)) -ℤ utc_its_diff ≡ pos (n + k * 1_000_000)
shifted u t n k h = eq_of_parts _ _ (
    omega (
      int_laws,
      ap pos_part h,
      ap neg_part h,
      ap pos_part (milliseconds k),
      ap neg_part (milliseconds k),
    ))

-- Where an action starts `n` nanoseconds after the epoch of ITS time, its message is stamped with a
-- number below 2^16, and an action that starts `k` milliseconds later is stamped with that
-- number plus `k` modulo 2^16.
pub generation_delta_time_wraps :
    (u t : TimePoint) (n k : ℕ)
    → u +ℤ t -ℤ utc_its_diff ≡ pos n
    → (g : ℕ) × (generation_delta_time (some u) t ≡ ok (pos g))
      × (g < 65_536)
      × (generation_delta_time (some u) (t +ℤ at_millisecond (pos k)) ≡ ok (pos ((g + k) % 65_536)))
unfolding generation_delta_time convert get_utc_start_time
generation_delta_time_wraps u t n k h = (
  n / 1_000 / 1_000 % 65_536,
  ground (arith, h, stamp n),
  omega arith,
  ground (arith, shifted u t n k h, stamp (n + k * 1_000_000), later n k),
)
