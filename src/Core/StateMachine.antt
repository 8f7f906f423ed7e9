-- ===== src/Core/StateMachine.antt =====
-- src/core/ActionStateMachine.cpp. A call returns the state that it leaves, also where it throws.
-- Printing the action is not modelled.
use cosidia.Prelude.{◌≡◌, ◌≢◌, refl, List, [], ◌∷◌, arith, ◌⊎◌, inl, inr, ◌↔◌}
use cosidia.Prelude.Result.{Result, ok, err, runtime_error}

pub data State : Type 0 where
  waiting running finished failure : State

unfoldable pub set_running : State → State × Result (Unit {0})
set_running waiting = (running, ok tt)
set_running _ = (failure, err (runtime_error "ActionStateMachine: Wrong State for begin Action"))

unfoldable pub set_finished : State → State × Result (Unit {0})
set_finished running = (finished, ok tt)
set_finished _ = (failure, err (runtime_error "ActionStateMachine: Wrong State for end Action"))

pub data Call : Type 0 where
  run_call finish_call : Call

abbrev pub step : Call → State → State × Result (Unit {0})
step run_call s = set_running s
step finish_call s = set_finished s

-- The calls in turn, and whether one of them threw.
pub calls : List Call → State → State × Result (Unit {0})
calls [] s = (s, ok tt)
calls (c ∷ cs) s =
    let rest = calls cs (step c s).0 in elim (step c s).1 [ ok _ ↦ rest | err e ↦ (rest.0, err e) ]

-- The orders of calls that an action may see.
abbrev pub IsLifeCycle : List Call → Type 0
IsLifeCycle cs = (cs ≡ []) ⊎ (cs ≡ run_call ∷ []) ⊎ (cs ≡ run_call ∷ finish_call ∷ [])

failure_stays : (cs : List Call) → (calls cs failure).0 ≡ failure
unfolding calls set_running set_finished
failure_stays [] = refl
failure_stays (run_call ∷ cs) = failure_stays cs
failure_stays (finish_call ∷ cs) = failure_stays cs

failure_throws : (c : Call) (cs : List Call) → (calls (c ∷ cs) failure).1 ≢ ok tt
unfolding calls set_running set_finished
failure_throws run_call cs = ground arith
failure_throws finish_call cs = ground arith

-- No call throws exactly when the action is set running at most once and then finished at most
-- once; every other order throws, and leaves the machine in the failure state.
pub calls_iff :
    (cs : List Call)
    → (((calls cs waiting).1 ≡ ok tt) ↔ IsLifeCycle cs)
      × ((calls cs waiting).1 ≢ ok tt → (calls cs waiting).0 ≡ failure)
unfolding calls set_running set_finished
calls_iff [] = ((λ _. inl refl, λ _. refl), λ h. absurd (h refl))
calls_iff (finish_call ∷ cs) = (
  (λ e. cc, λ h. elim h [ inl e ↦ cc | inr (inl e) ↦ cc | inr (inr e) ↦ cc ]),
  λ _. failure_stays cs,
)
calls_iff (run_call ∷ []) = ((λ _. inr (inl refl), λ _. refl), λ h. absurd (h refl))
calls_iff (run_call ∷ run_call ∷ cs) = (
  (λ e. cc, λ h. elim h [ inl e ↦ cc | inr (inl e) ↦ cc | inr (inr e) ↦ cc ]),
  λ _. failure_stays cs,
)
calls_iff (run_call ∷ finish_call ∷ []) = ((λ _. inr (inr refl), λ _. refl), λ h. absurd (h refl))
calls_iff (run_call ∷ finish_call ∷ run_call ∷ cs) = (
  (λ e. cc, λ h. elim h [ inl e ↦ cc | inr (inl e) ↦ cc | inr (inr e) ↦ cc ]),
  λ _. failure_stays cs,
)
calls_iff (run_call ∷ finish_call ∷ finish_call ∷ cs) = (
  (λ e. cc, λ h. elim h [ inl e ↦ cc | inr (inl e) ↦ cc | inr (inr e) ↦ cc ]),
  λ _. failure_stays cs,
)
