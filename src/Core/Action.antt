-- ===== src/Core/Action.antt =====
-- src/core/Action.hpp, src/core/Action.cpp, src/core/ActionHandler.hpp, src/core/ActionHandler.cpp
-- and src/objects/ObjectId.hpp. Shared pointers to actions and to action data are numbers.
-- An action's type, a Symbol, is its text: two symbols are equal just when their texts are.
-- The classes DurationAction and InitAction are the constructors of `ActionClass`.
use cosidia.Prelude.{
  ℤ, pos, negsuc, ◌+ℤ◌, leb_ℤ, ltb_ℤ, ℕ, Bool, true, false, Option, none, some, String,
}
use cosidia.Prelude.Result.{Result, ok, ◌>>◌, enforce, assert}
use cosidia.Core.Clock.{TimePoint, Duration, zero_time}
use cosidia.Core.StateMachine.{State, waiting}

-- A shared pointer. The objects behind shared pointers live as long as one is held.
abbrev pub Ref : Type 0
Ref = ℕ

abbrev pub ObjectId : Type 0
ObjectId = ℤ

abbrev pub valid : ObjectId → Bool
valid id = ltb_ℤ (negsuc 0) id

abbrev pub stub : ObjectId
stub = negsuc 0

abbrev pub root : ObjectId
root = pos 0

pub data ActionClass : Type 0 where
  duration_action init_action : ActionClass

pub record Action : Type 0 where
  pub action_class : ActionClass
  pub duration : Duration
  pub start_time : TimePoint
  pub affected : ObjectId
  pub generating : ObjectId
  pub action_id : ℕ
  pub action_type : String
  pub action_data : Option Ref
  pub state : State

-- ActionFactory::create, with the checks of the constructor.
unfoldable pub create : ActionClass → Duration → TimePoint → ObjectId → ObjectId → Result Action
create action_class duration start affected generator = do
  enforce (valid affected) "Action: tried to add invalid object id to action"
  enforce (leb_ℤ zero_time start) "Action: negative start time"
  ok (record {
    action_class = action_class;
    duration = duration;
    start_time = start;
    affected = affected;
    generating = generator;
    action_id = 0;
    action_type = "default";
    action_data = none;
    state = waiting;
  })

abbrev pub get_end_time : Action → TimePoint
get_end_time a = a.duration +ℤ a.start_time

unfoldable pub shift_start_time : TimePoint → Action → Result Action
shift_start_time t a = do
  enforce (leb_ℤ a.start_time t) "Action: new time point must be later the old time point"
  ok (record a { start_time = t })

unfoldable pub set_action_data : Ref → Action → Result Action
set_action_data d a = do
  assert (elim a.action_data [ none ↦ true | some _ ↦ false ])
  ok (record a { action_data = some d })

abbrev pub set_type : String → Action → Action
set_type t a = record a { action_type = t }

abbrev pub set_action_id : ℕ → Action → Action
set_action_id i a = record a { action_id = i }

-- The subclasses of ActionHandler, which say what the handler invokes.
pub data HandlerKind : Type 0 where
  start_handler end_handler init_handler : HandlerKind

pub record Handler : Type 0 where
  pub kind : HandlerKind
  pub action : Ref

-- The virtual getTime(), at the action that the handler points to.
unfoldable pub get_time : HandlerKind → Action → TimePoint
get_time start_handler a = a.start_time
get_time end_handler a = get_end_time a
get_time init_handler a = a.start_time
