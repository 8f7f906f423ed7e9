-- ===== src/Core/UtcTime.antt =====
-- getUtcStartTime and setUtcStartTime of src/core/Core.cpp. The two globals, utcStartTime and
-- timeIsSet, are one option: the time in nanoseconds where it is set.
use cosidia.Prelude.{Bool, true, false, Option, none, some}
use cosidia.Prelude.Result.{Result, ok, ◌>>◌, enforce, deref}
use cosidia.Core.Clock.{TimePoint}

abbrev pub is_set : Option TimePoint → Bool
is_set none = false
is_set (some t) = true

unfoldable pub get_utc_start_time : Option TimePoint → Result TimePoint
get_utc_start_time utc = do enforce (is_set utc) "Core: UTC Start time not valid"; deref utc

-- `now` is what the system clock shows.
unfoldable pub set_utc_start_time :
    (on_core_thread : Bool) (now : TimePoint) → Option TimePoint → Result (Option TimePoint)
set_utc_start_time on_core_thread now utc = do
  enforce (elim utc [ none ↦ true | some _ ↦ false ]) "Core: tried to set start time twice"
  enforce on_core_thread "Core: required to be on core for setting time"
  ok (some now)
