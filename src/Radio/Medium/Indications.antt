-- ===== src/Radio/Medium/Indications.antt =====
-- What a transmission through src/radio/Radio.cpp leaves behind.
use cosidia.Prelude.{
  pos, ◌≡◌, true, none, some, List, [], ◌∷◌, arith, ◌+◌, refl, sym, subst, ◌∙◌, ◌<◌, leb_ℤ,
}
use cosidia.Prelude.Result.{ok}
use cosidia.Core.Clock.{at_millisecond, zero_time}
use cosidia.Core.Action.{Ref, ObjectId, Action, duration_action, set_action_data, create, valid}
use cosidia.Core.StateMachine.{waiting}
use cosidia.Kernel.{System, pure, ◌>>=◌, update}
use cosidia.Kernel.Schedule.{make_action}
use cosidia.Radio.Decider.{
  RadioContext, find_transmission, insert_transmission, erase_transmission, decide_on_interferences,
}
use cosidia.Radio.Medium.{Radio, RadioResult, indicate, after, end_transmission}

find-insert_transmission :
    (t : Ref) (ids : List ObjectId) (m : RadioContext)
    → find_transmission t m ≡ none
    → find_transmission t (insert_transmission t ids m) ≡ some ids
unfolding find_transmission insert_transmission
find-insert_transmission t ids [] h = ground arith
find-insert_transmission t ids ((u, old) ∷ m) h = ground (arith, find-insert_transmission t ids m)

erase-insert_transmission :
    (t : Ref) (ids : List ObjectId) (m : RadioContext)
    → find_transmission t m ≡ none
    → erase_transmission t (insert_transmission t ids m) ≡ m
unfolding find_transmission insert_transmission erase_transmission
erase-insert_transmission t ids [] h = ground arith
erase-insert_transmission t ids ((u, old) ∷ m) h = ground (arith, erase-insert_transmission t ids m)

-- The pointers lead to the indications for the receivers, in order.
abbrev pub Indicates : (Ref → Action) → (ObjectId → Action) → List Ref → List ObjectId → Type 0
Indicates actions expected [] [] = Unit
Indicates actions expected (r ∷ rs) (id ∷ ids) =
    (actions r ≡ expected id) × Indicates actions expected rs ids
Indicates actions expected [] (id ∷ ids) = ⊥
Indicates actions expected (r ∷ rs) [] = ⊥

abbrev pub AllValid : List ObjectId → Type 0
AllValid [] = Unit
AllValid (id ∷ ids) = (valid id ≡ true) × AllValid ids

-- The action that tells a receiver of a transmission.
abbrev pub indication : Action → ObjectId → Ref → ObjectId → Action
indication ended generator transmission receiver = record {
  action_class = duration_action;
  duration = at_millisecond (pos 2);
  start_time = after (pos 1) ended;
  affected = receiver;
  generating = generator;
  action_id = 0;
  action_type = "indication";
  action_data = some transmission;
  state = waiting;
}

-- The action as ActionFactory creates it.
abbrev plain_indication : Action → ObjectId → ObjectId → Action
plain_indication ended generator receiver = record (indication ended generator 0 receiver) {
  action_type = "default";
  action_data = none;
}

module _ {Context Payload : Type 0} where
  -- The system with one indication more.
  indicated :
      System (Radio Context Payload) → Ref → Ref → Ref → ObjectId → System (Radio Context Payload)
  indicated s o a t receiver = record s {
    actions =
        update
          (update s.actions s.next_action
            (plain_indication (s.actions a) (s.objects o).object_id receiver))
          s.next_action (indication (s.actions a) (s.objects o).object_id t receiver);
    next_action = s.next_action + 1;
  }

  indicate-cons :
      (o a t : Ref) (id : ObjectId) (ids : List ObjectId) (s : System (Radio Context Payload))
      → valid id ≡ true
      → leb_ℤ zero_time (after (pos 1) (s.actions a)) ≡ true
      → indicate o a t (id ∷ ids) s
        ≡ (indicate o a t ids >>= λ rest. pure (s.next_action ∷ rest)) (indicated s o a t id)
  unfolding indicate make_action create set_action_data indicated
  indicate-cons o a t id ids s v h = ground (arith, v, h)

  indicated-actions :
      (s : System (Radio Context Payload)) (o a t : Ref) (id : ObjectId) (r : Ref)
      → r < s.next_action
      → (indicated s o a t id).actions r ≡ s.actions r
  unfolding indicated
  indicated-actions s o a t id r l = ground arith

  indicated_self :
      (s : System (Radio Context Payload)) (o a t : Ref) (id : ObjectId)
      → (indicated s o a t id).actions s.next_action
        ≡ indication (s.actions a) (s.objects o).object_id t id
  unfolding indicated
  indicated_self s o a t id = ground arith

  indicated-next :
      (s : System (Radio Context Payload)) (o a t : Ref) (id : ObjectId) {r : Ref}
      → r < s.next_action
      → r < (indicated s o a t id).next_action
  unfolding indicated
  indicated-next s o a t id l = ground arith

  indicated-next_self :
      (s : System (Radio Context Payload)) (o a t : Ref) (id : ObjectId)
      → s.next_action < (indicated s o a t id).next_action
  unfolding indicated
  indicated-next_self s o a t id = ground arith

  indicate-creates :
      (o a t : Ref) (ids : List ObjectId) (s : System (Radio Context Payload))
      → AllValid ids
      → leb_ℤ zero_time (after (pos 1) (s.actions a)) ≡ true
      → a < s.next_action
      → (rs : List Ref) × (s' : System (Radio Context Payload)) × (indicate o a t ids s
          ≡ ok (rs, s'))
        × Indicates s'.actions (indication (s.actions a) (s.objects o).object_id t) rs ids
        × ((r : Ref) → r < s.next_action → s'.actions r ≡ s.actions r)
  unfolding indicate indicated
  indicate-creates o a t [] s v h f = ([], s, refl, tt, λ r l. refl)
  indicate-creates o a t (id ∷ ids) s (v, vs) h f =
      let n = s.next_action in
      let s1 = indicated s o a t id in
      let same : s1.actions a ≡ s.actions a = indicated-actions s o a t id a f in
      let (rs, s', e, here, keeps) =
        indicate-creates o a t ids s1 vs
          (subst (λ x. leb_ℤ zero_time (after (pos 1) x) ≡ true) (sym same) h)
          (indicated-next s o a t id f) in
      (
        n ∷ rs,
        s',
        indicate-cons o a t id ids s v h ∙ ground (arith, e),
        (
          keeps n (indicated-next_self s o a t id) ∙ indicated_self s o a t id,
          subst (λ x. Indicates s'.actions (indication x (s.objects o).object_id t) rs ids) same
              here,
        ),
        λ r l. keeps r (indicated-next s o a t id l) ∙ indicated-actions s o a t id r l,
      )

  -- A transmission that the radio does not know yet is put into its context with valid ids of
  -- receivers, and then ends by an action that exists and carries it, where one millisecond after
  -- the end of that action is not before the start of the simulation. Then endTransmission returns.
  -- It leaves the context as it was before the transmission, and creates one "indication" action
  -- for each receiver, in order, which starts one millisecond after the end of the action.
  pub transmission_ends :
      (o a t : Ref) (ids : List ObjectId) (c : RadioContext) (s : System (Radio Context Payload))
      → find_transmission t c ≡ none
      → AllValid ids
      → (s.actions a).action_data ≡ some t
      → leb_ℤ zero_time (after (pos 1) (s.actions a)) ≡ true
      → a < s.next_action
      → (result : RadioResult) × (s' : System (Radio Context Payload)) × (end_transmission o a
            (insert_transmission t ids c)
            s
          ≡ ok (result, s'))
        × (result.context_to_swap ≡ c)
        × Indicates s'.actions
            (indication (s.actions a) (s.objects o).object_id t)
            result.actions_to_schedule
            ids
  unfolding end_transmission decide_on_interferences
  transmission_ends o a t ids c s new v d h f =
      let (rs, s', e, here, keeps) = indicate-creates o a t ids s v h f in
      (
        record {
          actions_to_schedule = rs;
          context_to_swap = erase_transmission t (insert_transmission t ids c);
        },
        s',
        ground (arith, e, d, find-insert_transmission t ids c new),
        erase-insert_transmission t ids c new,
        here,
      )
