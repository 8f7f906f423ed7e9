-- ===== src/Application/CaService/Period.antt =====
-- The end of an update of src/application/CaService.cpp.
use cosidia.Prelude.{
  ℤ, pos, ◌+ℤ◌, ◌<ℤ◌, leb_ℤ, int_laws, ℕ, ◌+◌, ◌<◌, ◌≡◌, arith, ap, subst, sym, true, some, none,
  [], ◌∷◌, Option,
}
use cosidia.Prelude.Result.{ok, err, runtime_error}
use text.Mathlib.Text.{◌==◌ as str_eq}
use cosidia.Utils.ContextContainer.{get_element}
use cosidia.Core.Clock.{TimePoint, zero_time, at_millisecond, at_second}
use cosidia.Core.Action.{
  Ref, Action, ObjectId, create, valid, duration_action, get_end_time, set_action_data,
}
use cosidia.Core.StateMachine.{waiting}
use cosidia.Kernel.{System, update, update_self}
use cosidia.Kernel.Schedule.{make_action}
use cosidia.Kernel.Schedule.Late.{at_time, schedule_all-late}
use cosidia.Kernel.Execution.{create_self_action}
use cosidia.Vehicles.Vehicle.{VehicleContext}
use cosidia.Application.Cam.{Cam, Validate, Numbers}
use cosidia.Application.CaService
use cosidia.Application.CaService.{
  ca_service, make_cam, execute_update, next_action, CaServiceUpdateData, ServiceActionData,
}

in_time :
    (t : ℤ) → leb_ℤ zero_time t ≡ true → leb_ℤ zero_time (at_millisecond (pos 100) +ℤ t) ≡ true
unfolding zero_time at_second at_millisecond ◌+ℤ◌
in_time t h = ground arith

later : (t d : ℤ) → pos 0 <ℤ d → t <ℤ d +ℤ t
later t d h = omega int_laws

module _ {Real : Type 0} (numbers : Numbers Real) (validate : Validate) (cam_port : ℕ) where
  abbrev Service : Type 0
  Service = System (CaService.CaService Real)

  -- The request to the router, and the next update, as they are created and as they are left.
  abbrev created : Ref → ObjectId → ℤ → TimePoint → Service → Action
  created o affected duration t s = record {
    action_class = duration_action;
    duration = duration;
    start_time = t;
    affected = affected;
    generating = (s.objects o).object_id;
    action_id = 0;
    action_type = "default";
    action_data = none;
    state = waiting;
  }

  abbrev request : Ref → TimePoint → Service → Action
  request o t s = record (created o s.model.router_id (at_millisecond (pos 1)) t s) {
    action_type = "ServiceRequest";
    action_data = some s.model.next_data;
  }

  abbrev again : Ref → TimePoint → Service → Action
  again o t s =
      record (created o (s.objects o).object_id (at_millisecond (pos 2))
        (at_millisecond (pos 100) +ℤ t) s) { action_type = "CaUpdate" }

  abbrev with_request : Ref → TimePoint → Cam → Service → Service
  with_request o t m s = record s {
    actions =
        update
          (update s.actions s.next_action
            (created o s.model.router_id (at_millisecond (pos 1)) t s))
          s.next_action (request o t s);
    next_action = s.next_action + 1;
    model = record s.model {
      service_data =
          update s.model.service_data s.model.next_data (record { packet = m; port = cam_port });
      next_data = s.model.next_data + 1;
    };
  }

  abbrev with_again : Ref → TimePoint → Service → Service
  with_again o t s = record s {
    actions =
        update (update s.actions s.next_action (record (again o t s) { action_type = "default" }))
          s.next_action (again o t s);
    next_action = s.next_action + 1;
  }

  next_action-with_again :
      (o a : Ref) (t : TimePoint) (s : Service)
      → (s.actions a).start_time ≡ t
      → leb_ℤ zero_time t ≡ true
      → valid (s.objects o).object_id ≡ true
      → next_action numbers validate cam_port "CaUpdate" o a s
        ≡ ok (s.next_action, with_again o t s)
  unfolding next_action create_self_action make_action create
  next_action-with_again o a t s e z v = ground (
    arith,
    e,
    in_time t z,
    v,
    update_self s.actions s.next_action (record (again o t s) { action_type = "default" }),
  )

  execute_update-eq :
      (o a : Ref) (context : Option (VehicleContext Real)) (m : Cam) (s : Service)
      → make_cam numbers validate cam_port (s.actions a).start_time context s ≡ ok (m, s)
      → leb_ℤ zero_time (s.actions a).start_time ≡ true
      → valid (s.objects o).object_id ≡ true
      → valid s.model.router_id ≡ true
      → a < s.next_action
      → execute_update numbers validate cam_port o a context s
        ≡ ok (
          record {
            actions_to_schedule = s.next_action ∷ (s.next_action + 1) ∷ [];
            action_to_delete = none;
          },
          with_again o (s.actions a).start_time (with_request o (s.actions a).start_time m s),
        )
  unfolding execute_update make_action create set_action_data
  execute_update-eq o a context m s e z v r l =
      let t = (s.actions a).start_time in
      ground (
        arith,
        e,
        z,
        r,
        update_self s.actions s.next_action
            (created o s.model.router_id (at_millisecond (pos 1)) t s),
        next_action-with_again o a t (with_request o t m s),
      )

  -- Where a vehicle with a context is known, the message is valid and the action is one of the core's
  -- own, an update starts with no error; but it asks the router for a transmission that starts
  -- with the update itself, so when the update ends, at a later time, that action cannot be
  -- scheduled any more, and the end throws.
  pub update_cannot_end :
      (o a v : Ref) (context : Option (VehicleContext Real)) (m : Cam)
      (s : System (CaService.CaService Real))
      → s.on_core_thread ≡ true
      → (s.actions a).action_type ≡ "CaUpdate"
      → s.model.vehicle_object ≡ some v
      → (s.model.contexts v).element ≡ context
      → make_cam numbers validate cam_port (s.actions a).start_time context s ≡ ok (m, s)
      → leb_ℤ zero_time (s.actions a).start_time ≡ true
      → pos 0 <ℤ (s.actions a).duration
      → valid (s.objects o).object_id ≡ true
      → valid s.model.router_id ≡ true
      → a < s.next_action
      → (s' : System (CaService.CaService Real)) × ((ca_service numbers validate
              cam_port).start_execution
            o a s
          ≡ ok (tt, s'))
        × ((ca_service numbers validate cam_port).end_execution o a
              (at_time (get_end_time (s.actions a)) s')
            ≡ err (runtime_error "ActionList: Wrong order of actions"))
  unfolding ca_service CaService.ca_start_execution CaService.ca_end_execution CaService.take_future
      CaService.set_future get_element
  update_cannot_end o a v context m s on u k c e z d valid_o valid_r l =
      let t = (s.actions a).start_time in
      let s1 = with_again o t (with_request o t m s) in
      let data_ : CaServiceUpdateData = record {
        actions_to_schedule = s.next_action ∷ (s.next_action + 1) ∷ [];
        action_to_delete = none;
      } in
      let s2 = record s1 { model = record s1.model { future = some data_ } } in
      let s3 = record (at_time (get_end_time (s.actions a)) s1) {
        model = record s1.model { future = none };
      } in
      let known : s1.actions s.next_action ≡ request o t s = ground arith in
      (
        s2,
        ground (
          arith,
          on,
          k,
          c,
          ap (λ n. str_eq n "CaUpdate") u,
          execute_update-eq o a context m s e z valid_o valid_r l,
        ),
        ground (
          arith,
          ap (λ n. str_eq n "CaUpdate") u,
          l,
          schedule_all-late s.next_action ((s.next_action + 1) ∷ []) s3 on
              (ap (λ r. r.action_class) known) (ap (λ r. r.action_id) known)
              (ap (λ r. r.state) known)
              (subst (λ r. r.start_time <ℤ get_end_time (s.actions a)) (sym known)
                (later t (s.actions a).duration d)),
        ),
      )
