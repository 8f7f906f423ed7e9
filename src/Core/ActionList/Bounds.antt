-- ===== src/Core/ActionList/Bounds.antt =====
-- The invariant of src/core/ActionList.cpp, and the time order in which it hands out handlers.
use cosidia.Prelude.{
  ◌<ℤ◌, true, false, ◌≡◌, ◌≢◌, refl, List, [], ◌∷◌, ◌++◌, All, All-map, arith, some,
}
use cosidia.Prelude.Result.{ok}
use cosidia.Std.Map.{find, update_at, Above, Above-IsSorted, IsSorted, update_at-IsSorted}
use cosidia.Core.Clock.{TimePoint}
use cosidia.Core.ActionList.{
  HandlerMap, is_empty, get_next_time_point, insert_handler, pop_next_handlers,
  get_next_handler_list,
}

module _ {H : Type 0} where
  abbrev pub IsBucket : TimePoint × List H → Type 0
  IsBucket (t, hs) = hs ≢ []

  -- The time points ascend, and no time point is left without a handler.
  pub record IsValid (m : HandlerMap H) : Type 0 where
    pub sorted : IsSorted m
    pub filled : All IsBucket m

  append_ne_nil : (hs : List H) (h : H) → hs ++ h ∷ [] ≢ []
  append_ne_nil [] h e = cc
  append_ne_nil (x ∷ hs) h e = cc

  pub is_empty-false : (hs : List H) → hs ≢ [] → is_empty hs ≡ false
  is_empty-false [] n = absurd (n refl)
  is_empty-false (x ∷ hs) n = refl

  push-filled :
      (t : TimePoint) (h : H) (m : HandlerMap H)
      → All IsBucket m
      → All IsBucket (update_at t [] (λ hs. hs ++ h ∷ []) m)
  unfolding update_at
  push-filled t h [] v = (λ e. cc, tt)
  push-filled t h ((j, hs) ∷ m) v =
      ground (arith, push-filled t h m v.1, append_ne_nil hs h, append_ne_nil [] h)

  -- Where the core thread inserts a handler and this does not throw, a valid list stays valid: its
  -- time points ascend and none is left without a handler.
  pub insert_handler-IsValid :
      (current : TimePoint) (time_of : H → TimePoint) (h : H) (m m' : HandlerMap H)
      → insert_handler true current time_of h m ≡ ok m'
      → IsValid m
      → IsValid m'
  unfolding insert_handler
  insert_handler-IsValid current time_of h m m' e v = record {
    sorted =
        ground
          (arith, update_at-IsSorted (time_of h) [] (λ (hs : List H). hs ++ h ∷ []) m v.sorted);
    filled = ground (arith, push-filled (time_of h) h m v.filled);
  }

  abbrev pub After : TimePoint → TimePoint × List H → Type 0
  After t (u, hs) = t <ℤ u

  Above-All : (t : TimePoint) (m : HandlerMap H) → Above t m → All (After t) m
  Above-All t [] s = tt
  Above-All t ((u, hs) ∷ m) s =
      (s.0, All-map (After u) (After t) (λ (v, hs'). λ h. omega (arith, s.0)) m (Above-All u m s.1))

  -- On a valid list that is not empty, on the core thread, the handlers of the next time point are
  -- handed out and none else: there is at least one, all that stay behind are due strictly later,
  -- and the list stays valid. The check for an empty time point does not throw.
  pub pop_next_handlers_lem :
      (m : HandlerMap H)
      → IsValid m
      → m ≢ []
      → (hs : List H) × (rest : HandlerMap H) × (pop_next_handlers true m ≡ ok (hs, rest))
        × (get_next_handler_list true m ≡ ok hs)
        × (hs ≢ [])
        × (find (get_next_time_point m) m ≡ some hs)
        × All (After (get_next_time_point m)) rest
        × IsValid rest
  unfolding pop_next_handlers get_next_handler_list get_next_time_point find
  pop_next_handlers_lem [] v n = absurd (n refl)
  pop_next_handlers_lem ((t, hs) ∷ m) v n = (
    hs,
    m,
    ground (arith, is_empty-false hs v.filled.0),
    ground (arith, is_empty-false hs v.filled.0),
    v.filled.0,
    ground arith,
    Above-All t m v.sorted,
    record { sorted = Above-IsSorted t m v.sorted; filled = v.filled.1 },
  )
