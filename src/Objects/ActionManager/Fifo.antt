-- ===== src/Objects/ActionManager/Fifo.antt =====
-- src/objects/ObjectActionManager.cpp serves the actions of an object in the order of submission.
pub mod Turn
use cosidia.Prelude.{
  ◌≡◌, ◌≢◌, refl, sym, ap, ◌∙◌, ◌⊎◌, inl, inr, Bool, true, false, Option, none, some, List, [], ◌∷◌,
  ◌++◌,
}
use cosidia.Prelude.Result.{Result, ok, err, ◌>>=◌}
use mathlib.Core.List.{append-nil, append_assoc}
use cosidia.Core.Action.{Ref}
use cosidia.Objects.ActionManager.{
  ActionManager, start_or_delay, end_and_check_available, activate_next_available_action,
}

-- Nothing waits while nothing runs: the state between the calls of an object.
abbrev pub IsServing : ActionManager → Type 0
IsServing m = (m.active_action ≢ none) ⊎ (m.delayed_queue ≡ [])

-- A caller's use of the manager: an action arrives, or the running one ends and, if one waits, the
-- next is activated. The second list gathers the actions in the order in which they start.
pub data Use : Type 0 where
  arrives : Ref → Use
  ends : Use

started_if : Bool → Ref → List Ref
started_if true a = []
started_if false a = a ∷ []

pub use_manager : Use → ActionManager → Result (ActionManager × List Ref)
unfolding started_if
use_manager (arrives a) m = do (m', delayed) ← start_or_delay a m; ok (m', started_if delayed a)
use_manager ends m = do
  let (m', available) = end_and_check_available m
  elim available [
    | true ↦ do (m'', a) ← activate_next_available_action m'; ok (m'', a ∷ [])
    | false ↦ ok (m', [])
  ]

pub use_all : List Use → ActionManager → Result (ActionManager × List Ref)
use_all [] m = ok (m, [])
use_all (u ∷ us) m = do
  (m', started) ← use_manager u m
  (m'', more) ← use_all us m'
  ok (m'', started ++ more)

-- The actions of a history, in the order of arrival.
pub submitted : List Use → List Ref
submitted [] = []
submitted (arrives a ∷ us) = a ∷ submitted us
submitted (ends ∷ us) = submitted us

submitted_by : Use → List Ref
submitted_by (arrives a) = a ∷ []
submitted_by ends = []

abbrev Serves : Use → ActionManager → Result (ActionManager × List Ref) → Type 0
Serves u m (ok (m', started)) =
    IsServing m' × (m.delayed_queue ++ submitted_by u ≡ started ++ m'.delayed_queue)
Serves u m (err e) = ⊥

use_manager-Serves :
    (u : Use) (a : Option Ref) (q : List Ref)
    → IsServing (record { active_action = a; delayed_queue = q })
    → Serves u
        (record { active_action = a; delayed_queue = q })
        (use_manager u (record { active_action = a; delayed_queue = q }))
unfolding use_manager start_or_delay end_and_check_available activate_next_available_action
    submitted_by
use_manager-Serves (arrives x) none [] s = (inl (λ e. cc), refl)
use_manager-Serves (arrives x) none (y ∷ q) s = elim s [ inl n ↦ n refl | inr e ↦ cc ]
use_manager-Serves (arrives x) (some r) q s = (inl (λ e. cc), refl)
use_manager-Serves ends a [] s = (inr refl, refl)
use_manager-Serves ends a (y ∷ q) s = (inl (λ e. cc), ap (◌∷◌ y) (append-nil q))

Serves-ok :
    (u : Use) (m : ActionManager) (r : Result (ActionManager × List Ref))
    → Serves u m r
    → (m' : ActionManager) × (started : List Ref) × (r ≡ ok (m', started))
      × IsServing m'
      × (m.delayed_queue ++ submitted_by u ≡ started ++ m'.delayed_queue)
Serves-ok u m (ok (m', started)) s = (m', started, refl, s.0, s.1)
Serves-ok u m (err e) s = absurd s

submitted-cons : (u : Use) (us : List Use) → submitted_by u ++ submitted us ≡ submitted (u ∷ us)
unfolding submitted submitted_by
submitted-cons (arrives a) us = refl
submitted-cons ends us = refl

regroup :
    (q s more r : List Ref) (u : Use) (us : List Use)
    → q ++ submitted_by u ≡ s ++ r
    → (rest : List Ref) → r ++ submitted us ≡ more ++ rest
    → q ++ submitted (u ∷ us) ≡ (s ++ more) ++ rest
regroup q s more r u us e rest f =
    ap (◌++◌ q) (sym (submitted-cons u us))
    ∙ sym (append_assoc q (submitted_by u) (submitted us))
    ∙ ap (λ l. l ++ submitted us) e
    ∙ append_assoc s r (submitted us)
    ∙ ap (◌++◌ s) f
    ∙ sym (append_assoc s more rest)

-- From a state in which nothing waits while nothing runs, no history of arrivals and ends makes a
-- call fail, and such a state is kept. The actions start in the order of their arrival, and none is
-- lost or started twice: what waited and what arrived is what has started and what still waits.
pub use_all_in_order :
    (us : List Use) (m : ActionManager)
    → IsServing m
    → (m' : ActionManager) × (started : List Ref) × (use_all us m ≡ ok (m', started))
      × IsServing m'
      × (m.delayed_queue ++ submitted us ≡ started ++ m'.delayed_queue)
unfolding use_all
use_all_in_order [] m s = (m, [], refl, s, unfold submitted in append-nil m.delayed_queue)
use_all_in_order (u ∷ us) m s =
    let (m1, s1, e1, v1, q1) =
      Serves-ok u m (use_manager u m) (use_manager-Serves u m.active_action m.delayed_queue s) in
    let (m2, s2, e2, v2, q2) = use_all_in_order us m1 v1 in
    (
      m2,
      s1 ++ s2,
      rw e1 (rw e2),
      v2,
      regroup m.delayed_queue s1 s2 m1.delayed_queue u us q1 m2.delayed_queue q2,
    )

-- An action is only started while none runs: with one running, an arrival is delayed and an
-- activation refused, and in both cases the running action stays.
pub one_at_a_time :
    (r a : Ref) (q : List Ref)
    → let m : ActionManager = record { active_action = some r; delayed_queue = q } in
      (start_or_delay a m ≡ ok (record m { delayed_queue = q ++ a ∷ [] }, true))
      × ((m' : ActionManager) (b : Ref) → activate_next_available_action m ≢ ok (m', b))
unfolding start_or_delay activate_next_available_action
one_at_a_time r a [] = (refl, λ m' b e. cc)
one_at_a_time r a (x ∷ q) = (refl, λ m' b e. cc)
