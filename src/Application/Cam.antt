-- ===== src/Application/Cam.antt =====
-- The messages of src/application/InternalCaService.cpp and src/application/CaService.cpp. `Real`
-- stands for the floating point numbers. Of the fields of a message those are left out that are
-- set to constants of the ASN.1 headers.
pub mod DeltaTime
use cosidia.Prelude.{ℤ, pos, negsuc, ◌-ℤ◌, ℕ, suc, ◌%◌, Bool, Option, none, some, String}
use Prim.Native.String
use cosidia.Prelude.Result.{Result, ok, err, runtime_error, ◌>>=◌}
use cosidia.Core.Clock.{TimePoint, div_trunc}
use cosidia.Networking.Runtime.{convert}

-- The remainder of C++, which has the sign of the dividend.
unfoldable pub rem_trunc : ℤ → ℕ → ℤ
unfolding ◌-ℤ◌
rem_trunc (pos n) d = pos (n % d)
rem_trunc (negsuc n) d = pos 0 -ℤ pos (suc n % d)

-- `milliseconds % 65536`
unfoldable pub generation_delta_time : Option TimePoint → TimePoint → Result ℤ
unfolding rem_trunc
generation_delta_time utc_start t = do
  microseconds ← convert utc_start t
  let milliseconds = div_trunc microseconds 1_000
  ok (rem_trunc milliseconds 65_536)

pub record Cam : Type 0 where
  pub protocol_version : ℕ
  pub station_id : ℕ
  pub generation_delta_time : ℤ
  pub longitude : ℤ
  pub latitude : ℤ
  pub semi_major_orientation : Option ℤ
  pub heading : ℤ
  pub speed : ℕ

-- vanetza::asn1::Cam::validate: `none`, or the text of the error.
abbrev pub Validate : Type 0
Validate = Cam → Option String

unfoldable pub check_cam : Validate → Cam → Result Cam
check_cam validate message = elim (validate message) [
  | none ↦ ok message
  | some e ↦ err (runtime_error (String.◌++◌ "Invalid high frequency CAM: %s" e))
]

-- `in_microdegrees` is `std::round(x * 1000 * 1000)` with its unit.
pub record Numbers (Real : Type 0) : Type 0 where
  pub in_microdegrees : Real → ℤ
  pub in_tenths : Real → ℤ
  pub to_integer : Real → ℤ
  pub is_nonnegative : Real → Bool
