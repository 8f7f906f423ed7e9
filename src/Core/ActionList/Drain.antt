-- ===== src/Core/ActionList/Drain.antt =====
-- What src/core/ActionList.cpp hands out in the end: a stable sort of the handlers by their time.
use cosidia.Prelude.{
  ◌≤ℤ◌, ◌<ℤ◌, eqb_ℤ, eqb_ℤ_iff, eq_of_parts, Bool-cases, inl, inr, subst, ◌+◌, ℕ, zero, suc, ◌<◌,
  ◌≤◌, true, ◌≡◌, refl, ◌∙◌, List, [], ◌∷◌, ◌++◌, All, All-map, All-append, length, arith,
  if◌then◌else◌,
}
use cosidia.Prelude.Result.{Result, ok, err, no_fuel, ◌>>=◌, >>=-eq-ok}
use mathlib.Core.List.{append-nil}
use cosidia.Std.Map.{find, update_at, Above, Above-IsSorted, IsSorted}
use cosidia.Core.Clock.{TimePoint}
use cosidia.Core.ActionList.{HandlerMap, insert_handler, pop_next_handlers}
use cosidia.Core.ActionList.Bounds.{IsBucket, IsValid, insert_handler-IsValid, is_empty-false}
use cosidia.Core.ActionList.Fifo.{insert_all, insert_all-eq, due, handlers_at}

module _ {H : Type 0} (time_of : H → TimePoint) where
  -- Every handler stands at its own time.
  abbrev IsKeyed : HandlerMap H → Type 0
  IsKeyed [] = Unit {0}
  IsKeyed ((t, hs) ∷ m) = All (λ h. time_of h ≡ t) hs × IsKeyed m

  -- `popNextHandlers` until the list is empty, on the core's thread.
  pub drain : ℕ → HandlerMap H → Result (List H)
  drain zero m = err no_fuel
  drain (suc fuel) [] = ok []
  drain (suc fuel) (b ∷ m) =
      pop_next_handlers true (b ∷ m) >>= λ (hs, rest). drain fuel rest >>= λ later. ok (hs ++ later)

  -- Each handler is due no later than those behind it.
  abbrev pub Ascends : List H → Type 0
  Ascends [] = Unit {0}
  Ascends (h ∷ hs) = All (λ g. time_of h ≤ℤ time_of g) hs × Ascends hs

  flatten : HandlerMap H → List H
  flatten [] = []
  flatten ((t, hs) ∷ m) = hs ++ flatten m

  drain-flatten :
      (fuel : ℕ) (m : HandlerMap H)
      → All IsBucket m
      → length m < fuel
      → drain fuel m ≡ ok (flatten m)
  unfolding drain flatten pop_next_handlers
  drain-flatten zero m v h = absurd (omega arith)
  drain-flatten (suc fuel) [] v h = refl
  drain-flatten (suc fuel) ((t, hs) ∷ m) v h =
      rw (is_empty-false hs v.0) (rw (drain-flatten fuel m v.1 (omega arith)))

  flatten-after :
      (t : TimePoint) (m : HandlerMap H)
      → Above t m
      → IsKeyed m
      → All (λ g. t <ℤ time_of g) (flatten m)
  unfolding flatten
  flatten-after t [] s k = tt
  flatten-after t ((u, hs) ∷ m) s k =
      All-append _ hs (flatten m) (All-map (λ h. time_of h ≡ u) _ (λ g. λ e. rw e s.0) hs k.0) (
        All-map (λ g. u <ℤ time_of g) _ (λ g. λ h. omega (arith, s.0)) (flatten m)
          (flatten-after u m s.1 k.1))

  Ascends-append :
      (t : TimePoint) (hs l : List H)
      → All (λ h. time_of h ≡ t) hs
      → All (λ g. t <ℤ time_of g) l
      → Ascends l
      → Ascends (hs ++ l)
  Ascends-append t [] l k a s = s
  Ascends-append t (h ∷ hs) l k a s = (
    All-append _ hs l (All-map (λ g. time_of g ≡ t) _ (λ g. λ e. rw (e, k.0) (omega arith)) hs k.1)
        (All-map (λ g. t <ℤ time_of g) _ (λ g. λ e. rw k.0 (omega arith)) l a),
    Ascends-append t hs l k.1 a s,
  )

  Ascends-flatten : (m : HandlerMap H) → IsSorted m → IsKeyed m → Ascends (flatten m)
  unfolding flatten
  Ascends-flatten [] s k = tt
  Ascends-flatten ((t, hs) ∷ m) s k =
      Ascends-append t hs (flatten m) k.0 (flatten-after t m s k.1)
        (Ascends-flatten m (Above-IsSorted t m s) k.1)

  module _ (current : TimePoint) where
    due-append :
        (t : TimePoint) (xs ys : List H)
        → due current time_of t (xs ++ ys) ≡ due current time_of t xs ++ due current time_of t ys
    unfolding due
    due-append t [] ys = refl
    due-append t (x ∷ xs) ys = ground (arith, due-append t xs ys)

    due-none :
        (t : TimePoint) (l : List H) → All (λ g. t <ℤ time_of g) l → due current time_of t l ≡ []
    unfolding due
    due-none t [] a = refl
    due-none t (g ∷ l) a = ground (arith, due-none t l a.1)

    due-bucket :
        (t u : TimePoint) (hs : List H)
        → All (λ h. time_of h ≡ u) hs
        → due current time_of t hs ≡ (if eqb_ℤ u t then hs else [])
    unfolding due
    due-bucket t u [] k = ground arith
    due-bucket t u (h ∷ hs) k = ground (arith, due-bucket t u hs k.1, k.0)

    due-flatten :
        (t : TimePoint) (m : HandlerMap H)
        → IsSorted m
        → IsKeyed m
        → due current time_of t (flatten m) ≡ handlers_at current time_of t m
    unfolding flatten find
    due-flatten t [] s k = unfold due in refl
    due-flatten t ((u, hs) ∷ m) s k = elim (Bool-cases (eqb_ℤ u t)) [
      | inl e ↦
          let same = (eqb_ℤ_iff u t).0 e in
          let later = due-none t (flatten m) (rw (← same) (flatten-after u m s k.1)) in
          due-append t hs (flatten m) ∙ rw (due-bucket t u hs k.0, e, later) (append-nil hs)
      | inr e ↦
          due-append t hs (flatten m)
          ∙ rw (due-bucket t u hs k.0, e) (due-flatten t m (Above-IsSorted u m s) k.1)
    ]

    -- What holds of a list holds after any insertions, where each one keeps it.
    insert_all-keeps {ℓ} :
        (P : HandlerMap H → Type ℓ)
        → ((h : H) (m m' : HandlerMap H)
            → insert_handler true current time_of h m ≡ ok m'
            → P m
            → P m')
        → (hs : List H) (m m' : HandlerMap H) → insert_all current time_of hs m ≡ ok m'
        → P m
        → P m'
    unfolding insert_all
    insert_all-keeps P keep [] m m' e p = subst P (ground (arith, e)) p
    insert_all-keeps P keep (h ∷ hs) m m' e p =
        let (n, e1, e2) = >>=-eq-ok (insert_handler true current time_of h m) _ e in
        insert_all-keeps P keep hs n m' e2 (keep h m n e1 p)

    push-IsKeyed :
        (h : H) (m : HandlerMap H)
        → IsKeyed m
        → IsKeyed (update_at (time_of h) [] (λ hs. hs ++ h ∷ []) m)
    unfolding update_at
    push-IsKeyed h [] k = ((refl, tt), tt)
    push-IsKeyed h ((u, hs) ∷ m) k = ground (
      arith,
      push-IsKeyed h m k.1,
      eq_of_parts (time_of h) u,
      λ (e : time_of h ≡ u). All-append (λ g. time_of g ≡ u) hs (h ∷ []) k.0 (e, tt),
    )

    insert_handler-IsKeyed :
        (h : H) (m m' : HandlerMap H)
        → insert_handler true current time_of h m ≡ ok m'
        → IsKeyed m
        → IsKeyed m'
    unfolding insert_handler
    insert_handler-IsKeyed h m m' e k = ground (arith, push-IsKeyed h m k)

    push-length :
        (h : H) (m : HandlerMap H)
        → length (update_at (time_of h) [] (λ hs. hs ++ h ∷ []) m) ≤ length m + 1
    unfolding update_at
    push-length h [] = omega arith
    push-length h ((u, hs) ∷ m) = ground (arith, push-length h m)

    insert_all-length :
        (hs : List H) (m m' : HandlerMap H)
        → insert_all current time_of hs m ≡ ok m'
        → length m' ≤ length m + length hs
    unfolding insert_all insert_handler
    insert_all-length [] m m' e = ground (arith, e)
    insert_all-length (h ∷ hs) m m' e =
        let (n, e1, e2) = >>=-eq-ok (insert_handler true current time_of h m) _ e in
        ground (arith, push-length h m, insert_all-length hs n m' e2, e1)

    -- On the core's thread, handlers that are due no earlier than the current time are all taken
    -- into an empty list, and more calls of popNextHandlers than there are handlers hand out, one
    -- after the other, a list in which each is due no later than those behind it, and in which
    -- those of each time stand in the order in which they came: the list is sorted stably, and
    -- nothing is lost or handed out twice.
    pub drained_in_order :
        (hs : List H) (fuel : ℕ)
        → All (λ h. current ≤ℤ time_of h) hs
        → length hs < fuel
        → (m : HandlerMap H) × (out : List H) × (insert_all current time_of hs [] ≡ ok m)
          × (drain fuel m ≡ ok out)
          × Ascends out
          × ((t : TimePoint) → due current time_of t out ≡ due current time_of t hs)
    drained_in_order hs fuel h f =
        let (m, e, same) = insert_all-eq current time_of hs [] h tt in
        let valid =
          insert_all-keeps IsValid (insert_handler-IsValid current time_of) hs [] m e
            (record { sorted = tt; filled = tt }) in
        let keyed = insert_all-keeps IsKeyed insert_handler-IsKeyed hs [] m e tt in
        (
          m,
          flatten m,
          e,
          drain-flatten fuel m valid.filled (omega (arith, insert_all-length hs [] m e)),
          Ascends-flatten m valid.sorted keyed,
          λ t. due-flatten t m valid.sorted keyed ∙ unfold find in same t,
        )
