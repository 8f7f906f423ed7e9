-- ===== src/Objects/ActionManager/Fifo/Turn.antt =====
-- An action that src/objects/ObjectActionManager.cpp has delayed is started in its turn.
use cosidia.Prelude.{ℕ, suc, ◌<◌, ◌≡◌, inl, arith, some, List, [], ◌∷◌, ◌++◌, length}
use cosidia.Prelude.Result.{ok}
use mathlib.Core.List.{append_assoc}
use cosidia.Core.Action.{Ref}
use cosidia.Objects.ActionManager.{
  ActionManager, start_or_delay, end_and_check_available, activate_next_available_action,
  start_or_delay_at, delay, is_action_available,
}
use cosidia.Objects.ActionManager.Fifo.{Use, arrives, ends, use_manager, use_all, use_all_in_order}
use cosidia.Objects.ActionManager.Fifo

-- How many running actions end in a history.
unfoldable pub ended : List Use → ℕ
ended [] = 0
ended (arrives a ∷ us) = ended us
ended (ends ∷ us) = suc (ended us)

abbrev serving : Ref → List Ref → ActionManager
serving r q = record { active_action = some r; delayed_queue = q }

delayed :
    (r x : Ref) (before : List Ref) (a : Ref) (after : List Ref)
    → use_manager (arrives x) (serving r (before ++ a ∷ after))
      ≡ ok (serving r (before ++ a ∷ (after ++ x ∷ [])), [])
unfolding use_manager start_or_delay start_or_delay_at delay Fifo.started_if
delayed r x before a after = rw (append_assoc before (a ∷ after) (x ∷ []))

-- While an action runs and `a` waits behind the actions `before`, let any history follow in which
-- more actions end than wait before `a`, whatever else arrives: then no call fails, and exactly
-- the actions `before`, in their order, are started before `a`, which is started next.
pub delayed_action_starts :
    (us : List Use) (r a : Ref) (before after : List Ref)
    → length before < ended us
    → (m' : ActionManager) × (later : List Ref) × (use_all us
          (record { active_action = some r; delayed_queue = before ++ a ∷ after })
        ≡ ok (m', before ++ a ∷ later))
unfolding use_all use_manager ended start_or_delay start_or_delay_at delay end_and_check_available
    is_action_available activate_next_available_action Fifo.started_if
delayed_action_starts [] r a before after h = ground arith
delayed_action_starts (arrives x ∷ us) r a before after h =
    let (m', later, e) = delayed_action_starts us r a before (after ++ x ∷ []) h in
    (
      m',
      later,
      ground (arith, e, append_assoc before (a ∷ after) (x ∷ []), delayed r x before a after),
    )
delayed_action_starts (ends ∷ us) r a [] after h =
    let (m', later, e, s, q) = use_all_in_order us (serving a after) (inl (λ e. cc)) in
    (m', later, ground (arith, e))
delayed_action_starts (ends ∷ us) r a (b ∷ before) after h =
    let (m', later, e) = delayed_action_starts us b a before after (omega (arith, h)) in
    (m', later, ground (arith, e))
