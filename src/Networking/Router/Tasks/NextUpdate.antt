-- ===== src/Networking/Router/Tasks/NextUpdate.antt =====
-- The updates that src/networking/Router.cpp schedules for itself.
use cosidia.Prelude.{
  pos, eqb_ℤ, leb_ℤ, eqb_ℤ_iff, ℕ, ◌+◌, ◌≡◌, refl, arith, Bool, true, false, Bool-cases, inl, inr,
  some, none, sym, subst, ◌≢◌, ◌⊎◌, [], ◌∷◌, ◌++◌,
}
use cosidia.Prelude.Result.{ok}
use cosidia.Core.Clock.{TimePoint, zero_time, at_millisecond}
use cosidia.Core.Action.{Ref, Action, create, valid, duration_action}
use cosidia.Core.StateMachine.{waiting}
use cosidia.Kernel.{System, update, update_self}
use cosidia.Kernel.Schedule.{make_action}
use cosidia.Kernel.Execution.{create_self_action}
use cosidia.Networking.Runtime.{Runtime, get_next_start, trigger_its}
use cosidia.Networking.Runtime
use cosidia.Networking.Runtime.Follows.{trigger-get_next_start}
use cosidia.Networking.Tracker.{set_next, next_start_time}
use cosidia.Application.Cam.{Validate, Numbers}
use cosidia.Networking.Router.{Vanetza, Router, RouterUpdateData, Base}
use cosidia.Networking.Router.Stack.{manual}
use cosidia.Networking.Router.Tasks
use cosidia.Networking.Router.Tasks.{schedule_next_update, push}

module _ {V Real Address Profile Category Packet : Type 0}
    (van : Vanetza V Real Address Profile Category Packet) (numbers : Numbers Real)
    (validate : Validate) (expired : System (Router V Real Address Profile Category Packet) → Bool)
    (fuel : ℕ) where
  -- The new action, as it is created.
  abbrev update_action :
      Ref → TimePoint → System (Router V Real Address Profile Category Packet) → Action
  update_action o t s = record {
    action_class = duration_action;
    duration = at_millisecond (pos 2);
    start_time = t;
    affected = (s.objects o).object_id;
    generating = (s.objects o).object_id;
    action_id = 0;
    action_type = "update";
    action_data = none;
    state = waiting;
  }

  -- The state once it is tracked.
  abbrev tracked :
      Ref
      → TimePoint
      → System (Router V Real Address Profile Category Packet)
      → System (Router V Real Address Profile Category Packet)
  tracked o t s = record s {
    actions =
        update
          (update s.actions s.next_action
            (record (update_action o t s) { action_type = "default" }))
          s.next_action (update_action o t s);
    next_action = s.next_action + 1;
    model = record s.model { tracker = set_next s.next_action s.model.tracker };
  }

  schedules :
      (o : Ref) (d : RouterUpdateData) (runtime : Runtime (Base V Address Profile Packet))
      (s : System (Router V Real Address Profile Category Packet))
      → s.model.runtime ≡ some runtime
      → valid (s.objects o).object_id ≡ true
      → leb_ℤ zero_time (get_next_start (manual van) runtime) ≡ true
      → eqb_ℤ (get_next_start (manual van) runtime) (next_start_time s.actions s.model.tracker)
        ≡ false
      → schedule_next_update van numbers validate expired fuel o d s
        ≡ ok (push s.next_action d, tracked o (get_next_start (manual van) runtime) s)
  unfolding schedule_next_update Tasks.self_action create_self_action make_action create
  schedules o d runtime s e v z n = ground (
    arith,
    e,
    v,
    z,
    n,
    update_self s.actions s.next_action
        (record (update_action o (get_next_start (manual van) runtime) s) {
          action_type = "default";
        }),
  )

  stays :
      (o : Ref) (d : RouterUpdateData) (runtime : Runtime (Base V Address Profile Packet))
      (s : System (Router V Real Address Profile Category Packet))
      → s.model.runtime ≡ some runtime
      → eqb_ℤ (get_next_start (manual van) runtime) (next_start_time s.actions s.model.tracker)
        ≡ true
      → schedule_next_update van numbers validate expired fuel o d s ≡ ok (d, s)
  unfolding schedule_next_update
  stays o d runtime s e same = ground (arith, e, same)

  created :
      (o : Ref) (t : TimePoint) (s : System (Router V Real Address Profile Category Packet))
      → (tracked o t s).model.tracker.next_start ≡ some s.next_action
  unfolding set_next
  created o t s = ground arith

  tracked_time :
      (o : Ref) (t : TimePoint) (s : System (Router V Real Address Profile Category Packet))
      → next_start_time (tracked o t s).actions (tracked o t s).model.tracker ≡ t
  unfolding next_start_time set_next
  tracked_time o t s = ground arith

  -- What becomes of the next update, which is due at `t`: the tracker already waits for an action that
  -- starts then, and nothing changes; or an action of type "update" is created, which the object
  -- sends itself, it is put behind the actions to schedule, and the tracker gets it as its next one.
  abbrev pub Scheduled :
      Ref
      → TimePoint
      → (d d' : RouterUpdateData) (s s' : System (Router V Real Address Profile Category Packet))
      → Type 0
  Scheduled o t d d' s s' =
      ((next_start_time s.actions s.model.tracker ≡ t) × (d' ≡ d) × (s' ≡ s))
      ⊎ ((next_start_time s.actions s.model.tracker ≢ t)
          × (d'.actions_to_schedule ≡ d.actions_to_schedule ++ (s.next_action ∷ []))
          × (s'.actions s.next_action ≡ update_action o t s)
          × (s'.model.tracker.next_start ≡ some s.next_action))

  -- Where the object's id is valid and the time of the runtime's next callback is not negative,
  -- scheduleNextUpdate returns and leaves the runtime as it is. Unless the tracker already waits for
  -- an action that starts when the callback is due, a new action of type "update", which the object
  -- sends itself and which starts then, is put behind the actions to schedule, and the tracker waits
  -- for it. Triggering the runtime at the start time of the action that the tracker waits for is
  -- triggering it at the callback's own ITS time.
  pub update_meets_callback :
      (o : Ref) (d : RouterUpdateData) (runtime : Runtime (Base V Address Profile Packet))
      (s : System (Router V Real Address Profile Category Packet))
      → s.model.runtime ≡ some runtime
      → valid (s.objects o).object_id ≡ true
      → leb_ℤ zero_time (get_next_start (manual van) runtime) ≡ true
      → (d' : RouterUpdateData) × (s' : System (Router V Real Address Profile Category Packet))
        × (schedule_next_update van numbers validate expired fuel o d s ≡ ok (d', s'))
        × (s'.model.runtime ≡ s.model.runtime)
        × Scheduled o (get_next_start (manual van) runtime) d d' s s'
        × (Runtime.trigger (manual van) (next_start_time s'.actions s'.model.tracker) runtime
            ≡ trigger_its (manual van) ((manual van).next runtime.base) runtime)
  update_meets_callback o d runtime s e v z =
      let next = get_next_start (manual van) runtime in
      let meets = trigger-get_next_start (manual van) runtime in
      elim (Bool-cases (eqb_ℤ next (next_start_time s.actions s.model.tracker))) [
        | inl same ↦ (
          d,
          s,
          stays o d runtime s e same,
          refl,
          inl (sym ((eqb_ℤ_iff next _).0 same), refl, refl),
          subst
              (λ t.
                Runtime.trigger (manual van) t runtime
                ≡ trigger_its (manual van) ((manual van).next runtime.base) runtime)
              ((eqb_ℤ_iff next _).0 same) meets,
        )
        | inr other ↦ (
          _,
          _,
          schedules o d runtime s e v z other,
          refl,
          inr (λ e. ground (arith, e, other), refl, ground arith, created o next s),
          subst
              (λ t.
                Runtime.trigger (manual van) t runtime
                ≡ trigger_its (manual van) ((manual van).next runtime.base) runtime)
              (sym (tracked_time o next s)) meets,
        )
      ]
