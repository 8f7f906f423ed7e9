-- ===== src/Core/ActionList/Fifo.antt =====
-- The order of handlers that are due at one time, src/core/ActionList.cpp.
use cosidia.Prelude.{
  ◌≤ℤ◌, ◌<ℤ◌, eqb_ℤ, eqb_ℤ_iff, true, ◌≡◌, refl, sym, ap, ◌∙◌, List, [], ◌∷◌, ◌++◌, All, arith,
  if◌then◌else◌,
}
use cosidia.Prelude.Result.{Result, ok, err, runtime_error, ◌>>=◌}
use mathlib.Core.Option.{get_or}
use mathlib.Core.List.{append-nil, append_assoc}
use cosidia.Std.Map.{find, update_at, find-update_at, update_at-IsSorted, IsSorted}
use cosidia.Core.Clock.{TimePoint}
use cosidia.Core.ActionList.{HandlerMap, insert_handler}

module _ {H : Type 0} (current : TimePoint) (time_of : H → TimePoint) where
  unfoldable pub insert_all : List H → HandlerMap H → Result (HandlerMap H)
  insert_all [] m = ok m
  insert_all (h ∷ hs) m = do m' ← insert_handler true current time_of h m; insert_all hs m'

  -- The handlers that are due at `t`, in their order.
  unfoldable pub due : TimePoint → List H → List H
  due t [] = []
  due t (h ∷ hs) = if eqb_ℤ (time_of h) t then h ∷ due t hs else due t hs

  abbrev pub handlers_at : TimePoint → HandlerMap H → List H
  handlers_at t m = get_or (find t m) []

  pushed : H → HandlerMap H → HandlerMap H
  pushed h m = update_at (time_of h) [] (λ hs. hs ++ h ∷ []) m

  handlers_at-pushed :
      (t : TimePoint) (h : H) (m : HandlerMap H)
      → IsSorted m
      → handlers_at t (pushed h m) ≡ handlers_at t m ++ due t (h ∷ [])
  unfolding pushed due
  handlers_at-pushed t h m s = ground (
    arith,
    find-update_at (time_of h) t [] (λ (hs : List H). hs ++ h ∷ []) m s,
    eqb_ℤ_iff (time_of h) t,
    append-nil (handlers_at t m),
  )

  due-cons : (t : TimePoint) (h : H) (hs : List H) → due t (h ∷ []) ++ due t hs ≡ due t (h ∷ hs)
  unfolding due
  due-cons t h hs = ground arith

  insert_handler-eq :
      (h : H) (m : HandlerMap H)
      → current ≤ℤ time_of h
      → insert_handler true current time_of h m ≡ ok (pushed h m)
  unfolding insert_handler pushed
  insert_handler-eq h m e = ground arith

  -- On the core thread, handlers that are due no earlier than the current time are all taken into a
  -- list whose time points ascend. Then at each time point stand the handlers that stood there,
  -- followed by the new ones that are due then, in the order in which they came.
  pub insert_all-eq :
      (hs : List H) (m : HandlerMap H)
      → All (λ h. current ≤ℤ time_of h) hs
      → IsSorted m
      → (m' : HandlerMap H) × (insert_all hs m ≡ ok m')
        × ((t : TimePoint) → handlers_at t m' ≡ handlers_at t m ++ due t hs)
  unfolding insert_all due
  insert_all-eq [] m h s = (m, refl, λ t. sym (append-nil _))
  insert_all-eq (x ∷ hs) m h s =
      let (m', e, f) =
        insert_all-eq hs (pushed x m) h.1
          (unfold pushed in update_at-IsSorted (time_of x) [] _ m s) in
      (
        m',
        rw (insert_handler-eq x m h.0) e,
        λ t.
            f t
            ∙ ap (λ l. l ++ due t hs) (handlers_at-pushed t x m s)
            ∙ append_assoc (handlers_at t m) (due t (x ∷ [])) (due t hs)
            ∙ ap (◌++◌ (handlers_at t m)) (due-cons t x hs),
      )

  -- A handler that is due before the current time is refused.
  pub insert_handler_past :
      (h : H) (m : HandlerMap H)
      → time_of h <ℤ current
      → insert_handler true current time_of h m
        ≡ err (runtime_error "ActionList: Wrong order of actions")
  unfolding insert_handler
  insert_handler_past h m e = ground arith
