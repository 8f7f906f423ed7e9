-- ===== src/Radio/Medium.antt =====
-- src/radio/Radio.cpp. The radio is an object whose own state is a `Radio`, with the heap of
-- transmissions behind action data. A fiber runs its task when it is launched: the task reads its
-- action, its context and a transmission. The decider is the one of the constructor.
pub mod Indications
use cosidia.Prelude.{
  ℤ, pos, ◌+ℤ◌, ℕ, Bool, true, false, ◌||◌, Option, none, some, List, [], ◌∷◌, String,
  if◌then◌else◌,
}
use cosidia.Prelude.Result.{Result, ok, err, Error, runtime_error, enforce, deref, get_future}
use text.Mathlib.Text.{◌==◌ as str_eq}
use cosidia.Utils.ContextContainer.{ContextContainer, get_element, swap}
use cosidia.Core.Clock.{TimePoint, Duration, at_millisecond}
use cosidia.Core.Action.{Ref, ObjectId, Action, duration_action, set_type, set_action_data}
use cosidia.Kernel.{System, M, pure, ◌>>=◌, ◌>>◌, get, put, lift, throw, set_action}
use cosidia.Kernel.Schedule.{make_action, schedule_all}
use cosidia.Kernel.Execution.{Behaviour, create_self_action}
use cosidia.Radio.Transmission.{Transmission}
use cosidia.Radio.Decider.{
  RadioContext, insert_transmission, erase_transmission, decide_for_everyone,
  decide_on_interferences,
}

-- Radio::Result
pub record RadioResult : Type 0 where
  pub actions_to_schedule : List Ref
  pub context_to_swap : RadioContext

pub record Radio (Context Payload : Type 0) : Type 0 where
  pub future : Option RadioResult
  pub radio_context : ContextContainer RadioContext
  pub transmissions : Ref → Transmission Context Payload

-- `getStartTime() + getDuration() + milliseconds(n)`
abbrev pub after : ℤ → Action → TimePoint
after n a = a.start_time +ℤ a.duration +ℤ at_millisecond n

module _ {Context Payload : Type 0} where
  -- `setType` and `setActionData` of an action that was just created.
  unfoldable pub describe : String → Ref → Ref → M (Radio Context Payload) (Unit {0})
  describe action_type transmission a = do
    s ← get
    a' ← lift (set_action_data transmission (set_type action_type (s.actions a)))
    set_action a a'

  unfoldable pub start_transmission :
      Ref → Ref → RadioContext → M (Radio Context Payload) RadioResult
  unfolding describe
  start_transmission o a context = do
    s ← get
    transmission ← lift (deref (s.actions a).action_data)
    recipients ← lift (decide_for_everyone (s.model.transmissions transmission))
    new_action ← create_self_action o (at_millisecond (pos 2)) (after (pos 2) (s.actions a))
    describe "transmissionEnd" transmission new_action
    pure (record {
      actions_to_schedule = new_action ∷ [];
      context_to_swap = insert_transmission transmission recipients context;
    })

  -- One action for each receiver.
  unfoldable pub indicate : Ref → Ref → Ref → List ObjectId → M (Radio Context Payload) (List Ref)
  unfolding describe
  indicate o a transmission [] = pure []
  indicate o a transmission (receiver ∷ receivers) = do
    s ← get
    new_action ←
        make_action duration_action (at_millisecond (pos 2)) (after (pos 1) (s.actions a)) receiver
          (s.objects o).object_id
    describe "indication" transmission new_action
    rest ← indicate o a transmission receivers
    pure (new_action ∷ rest)

  unfoldable pub end_transmission : Ref → Ref → RadioContext → M (Radio Context Payload) RadioResult
  unfolding indicate
  end_transmission o a context = do
    s ← get
    transmission ← lift (deref (s.actions a).action_data)
    receivers ← lift (decide_on_interferences transmission context)
    new_actions ← indicate o a transmission receivers
    pure (record {
      actions_to_schedule = new_actions;
      context_to_swap = erase_transmission transmission context;
    })

  -- The fiber that runs a task on the radio's context, and leaves its result in the future.
  launch :
      Bool
      → (RadioContext → M (Radio Context Payload) RadioResult)
      → M (Radio Context Payload) (Unit {0})
  launch on_core_thread task = do
    s ← get
    context ← lift (get_element on_core_thread s.model.radio_context)
    c ← lift (deref context)
    result ← task c
    s ← get
    put (record s { model = record s.model { future = some result } })

  radio_start_execution : Ref → Ref → M (Radio Context Payload) (Unit {0})
  unfolding launch start_transmission end_transmission
  radio_start_execution o a = do
    s ← get
    if str_eq (s.actions a).action_type "transmissionStart"
        then launch s.on_core_thread (start_transmission o a)
        else if str_eq (s.actions a).action_type "transmissionEnd"
        then launch s.on_core_thread (end_transmission o a)
        else throw (runtime_error "Radio: wrong BeginAction received")

  -- `mFuture.get()` leaves the future with no state.
  finish : M (Radio Context Payload) (Unit {0})
  unfolding schedule_all
  finish = do
    s ← get
    result ← lift (get_future s.model.future)
    context ← lift (swap s.on_core_thread (some result.context_to_swap) s.model.radio_context)
    put (record s { model = record s.model { future = none; radio_context = context } })
    schedule_all result.actions_to_schedule

  radio_end_execution : Ref → Ref → M (Radio Context Payload) (Unit {0})
  unfolding finish
  radio_end_execution o a = do
    s ← get
    if str_eq (s.actions a).action_type "transmissionStart"
          || str_eq (s.actions a).action_type "transmissionEnd"
        then finish
        else throw (runtime_error "Radio: wrong EndAction received")

  unfoldable pub radio : Behaviour (Radio Context Payload)
  unfolding radio_start_execution radio_end_execution
  radio = record {
    start_execution = radio_start_execution;
    end_execution = radio_end_execution;
    init_object = λ o a. pure tt;
  }
