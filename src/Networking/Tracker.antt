-- ===== src/Networking/Tracker.antt =====
-- src/networking/ActiveActionTracker.cpp. A pointer to an action is `none` where it is null;
-- `actions` is the heap of actions.
use cosidia.Prelude.{
  ◌≡◌, ◌≢◌, ◌==◌, Bool, true, false, not, ◌&&◌, ◌||◌, Option, none, some, if◌then◌else◌, arith,
}
use cosidia.Prelude.Result.{Result, ok, ◌>>◌, enforce}
use cosidia.Core.Clock.{TimePoint, zero_time}
use cosidia.Core.Action.{Ref, Action}

pub record Tracker : Type 0 where
  pub next_start : Option Ref
  pub next_end : Option Ref

abbrev pub new_tracker : Tracker
new_tracker = record { next_start = none; next_end = none }

abbrev pub is_null : Option Ref → Bool
is_null none = true
is_null (some a) = false

abbrev pub same : Option Ref → Option Ref → Bool
same none none = true
same (some a) (some b) = a == b
same none (some b) = false
same (some a) none = false

unfoldable pub set_next : Ref → Tracker → Tracker
set_next a t = record {
  next_start = some a;
  next_end = if is_null t.next_end then some a else t.next_end;
}

unfoldable pub is_end : Ref → Tracker → Result (Tracker × Bool)
is_end a t =
    if same t.next_end (some a) || is_null t.next_end
    then (enforce (not (same t.next_end t.next_start) || is_null t.next_end && is_null t.next_start)
          "ActiveActionTracker: start and end must be different"
        >> ok (record t { next_end = t.next_start }, true))
    else ok (t, false)

unfoldable pub is_start : Ref → Tracker → Bool
is_start a t = if same t.next_start (some a) || is_null t.next_start then true else false

unfoldable pub next_start_time : (Ref → Action) → Tracker → TimePoint
next_start_time actions t = elim t.next_start [ none ↦ zero_time | some a ↦ (actions a).start_time ]

abbrev pub get_end : Tracker → Option Ref
get_end t = t.next_end

-- Where two different actions are set in turn on a new tracker, the first is no start any more and
-- the second is; the end of the first is accepted and of the second is not; and after the
-- first has ended, the end of the second is refused with an error until a third action,
-- different from the second, is set, and is accepted then.
pub hands_over :
    (a b c : Ref)
    → a ≢ b
    → b ≢ c
    → let t = set_next b (set_next a new_tracker) in
      (is_start a t ≡ false)
      × (is_start b t ≡ true)
      × (is_end b t ≡ ok (t, false))
      × (is_end a t ≡ ok (set_next b new_tracker, true))
      × (is_end b (set_next b new_tracker)
          ≡ enforce false "ActiveActionTracker: start and end must be different" >> ok (t, true))
      × (is_end b (set_next c (set_next b new_tracker)) ≡ ok (set_next c new_tracker, true))
unfolding set_next is_end is_start
hands_over a b c h k =
    (ground arith, ground arith, ground arith, ground arith, ground arith, ground arith)
