-- ===== src/Kernel/Shutdown/Joined.antt =====
-- Every worker of src/core/Core.cpp ends once the simulation is marked as finished.
use cosidia.Prelude.{
  ℕ, suc, ◌+◌, ◌≤◌, ◌≡◌, ◌≢◌, ◌⊎◌, inl, inr, refl, subst, sym, Bool, true, false, List, [], ◌∷◌,
  map, All, arith,
}
use cosidia.Kernel.Shutdown.{
  Worker, starting, sleeping, woken, ended, Phase, looping, flagged, joining, joined, Closing,
  launched, test, notify, may_test, Turn, tests, returns, other, Step, turn, finish, notifies,
  joins, Run, stays, steps,
}

abbrev IsUp : Worker → Type 0
IsUp w = w ≢ sleeping

-- What holds in each phase: from the notification on no worker sleeps.
abbrev Holds : Phase → Bool → List Worker → Type 0
Holds looping is_finished ws = is_finished ≡ false
Holds flagged is_finished ws = is_finished ≡ true
Holds joining is_finished ws = (is_finished ≡ true) × All IsUp ws
Holds joined is_finished ws = (is_finished ≡ true) × All (λ w. w ≡ ended) ws

weight : Worker → ℕ
weight ended = 0
weight starting = 1
weight sleeping = 1
weight woken = 1

-- The workers that have not ended.
unfoldable pub pending : List Worker → ℕ
unfolding weight
pending [] = 0
pending (w ∷ ws) = weight w + pending ws

notify-IsUp : (ws : List Worker) → All IsUp (map notify ws)
unfolding notify
notify-IsUp [] = tt
notify-IsUp (starting ∷ ws) = (λ e. cc, notify-IsUp ws)
notify-IsUp (sleeping ∷ ws) = (λ e. cc, notify-IsUp ws)
notify-IsUp (woken ∷ ws) = (λ e. cc, notify-IsUp ws)
notify-IsUp (ended ∷ ws) = (λ e. cc, notify-IsUp ws)

test-IsUp :
    (f : Bool) (w : Worker)
    → f ≡ true
    → may_test w ≡ true
    → IsUp (test f) × (weight (test f) ≡ 0) × (weight w ≡ 1)
unfolding test weight
test-IsUp false w e m = cc
test-IsUp true starting e m = (λ q. cc, refl, refl)
test-IsUp true woken e m = (λ q. cc, refl, refl)
test-IsUp true sleeping e m = cc
test-IsUp true ended e m = cc

Turn-IsUp :
    {f : Bool} {ws vs : List Worker}
    → Turn f ws vs
    → f ≡ true
    → All IsUp ws
    → All IsUp vs × (suc (pending vs) ≡ pending ws)
unfolding pending
Turn-IsUp {f} (tests w ws m) e h =
    let (up, a, b) = test-IsUp f w e m in ((up, h.1), omega (arith, a, b))
Turn-IsUp (returns w ws m) e h = absurd (h.0 m)
Turn-IsUp (other w ws vs r) e h = let (up, p) = Turn-IsUp r e h.1 in ((h.0, up), omega (arith, p))

-- Where none sleeps, all have ended or one can go on.
Turn-next :
    (f : Bool) (ws : List Worker)
    → All IsUp ws
    → All (λ w. w ≡ ended) ws ⊎ ((vs : List Worker) × Turn f ws vs)
Turn-next f [] h = inl tt
Turn-next f (starting ∷ ws) h = inr (test f ∷ ws, tests starting ws refl)
Turn-next f (woken ∷ ws) h = inr (test f ∷ ws, tests woken ws refl)
Turn-next f (sleeping ∷ ws) h = absurd (h.0 refl)
Turn-next f (ended ∷ ws) h = elim (Turn-next f ws h.1) [
  | inl all ↦ inl (refl, all)
  | inr (vs, r) ↦ inr (ended ∷ vs, other ended ws vs r)
]

Turn-ended : {f : Bool} {ws vs : List Worker} → Turn f ws vs → All (λ w. w ≡ ended) ws → ⊥
Turn-ended (tests w ws m) h = ground (arith, m, h.0)
Turn-ended (returns w ws m) h = cc
Turn-ended (other w ws vs r) h = Turn-ended r h.1

abbrev Invariant : Closing → Type 0
Invariant s = Holds s.phase s.is_finished s.workers

Turn-Holds :
    (p : Phase) {f : Bool} {ws vs : List Worker} → Turn f ws vs → Holds p f ws → Holds p f vs
Turn-Holds looping r h = h
Turn-Holds flagged r h = h
Turn-Holds joining r h = (h.0, (Turn-IsUp r h.0 h.1).0)
Turn-Holds joined r h = absurd (Turn-ended r h.1)

Step-Invariant : {s t : Closing} → Step s t → Invariant s → Invariant t
Step-Invariant (turn s ws r) h = Turn-Holds s.phase r h
Step-Invariant (finish s p) h = refl
Step-Invariant (notifies s p) h =
    let g = subst (λ q. Holds q s.is_finished s.workers) p h in (g, notify-IsUp s.workers)
Step-Invariant (joins s p all) h =
    let g = subst (λ q. Holds q s.is_finished s.workers) p h in (g.0, all)

-- The steps that are left once the workers are notified.
abbrev left : Phase → List Worker → ℕ
left looping ws = 0
left flagged ws = 0
left joining ws = pending ws + 1
left joined ws = 0

abbrev IsNotified : Phase → Type 0
IsNotified looping = ⊥
IsNotified flagged = ⊥
IsNotified joining = Unit {0}
IsNotified joined = Unit {0}

abbrev Falls : Closing → Closing → Type 0
Falls s t = IsNotified t.phase × (suc (left t.phase t.workers) ≤ left s.phase s.workers)

Turn-Falls :
    (p : Phase) {f : Bool} {ws vs : List Worker}
    → Turn f ws vs
    → IsNotified p
    → Holds p f ws
    → suc (left p vs) ≤ left p ws
Turn-Falls looping r n h = absurd n
Turn-Falls flagged r n h = absurd n
Turn-Falls joining r n h = omega (arith, (Turn-IsUp r h.0 h.1).1)
Turn-Falls joined r n h = absurd (Turn-ended r h.1)

Step-Falls : {s t : Closing} → Step s t → IsNotified s.phase → Invariant s → Falls s t
Step-Falls (turn s ws r) n h = (n, Turn-Falls s.phase r n h)
Step-Falls (finish s p) n h = absurd (subst IsNotified p n)
Step-Falls (notifies s p) n h = absurd (subst IsNotified p n)
Step-Falls (joins s p all) n h = (tt, subst (λ q. 1 ≤ left q s.workers) (sym p) (omega arith))

Run-Invariant : {k : ℕ} {s t : Closing} → Run k s t → Invariant s → Invariant t
Run-Invariant (stays s) h = h
Run-Invariant (steps k s t u e r) h = Run-Invariant r (Step-Invariant e h)

Run-Falls :
    {k : ℕ} {s t : Closing}
    → Run k s t
    → IsNotified s.phase
    → Invariant s
    → IsNotified t.phase × (k ≤ left s.phase s.workers)
Run-Falls (stays s) n h = (n, omega arith)
Run-Falls (steps k s t u e r) n h =
    let (m, f) = Step-Falls e n h in
    let (l, g) = Run-Falls r m (Step-Invariant e h) in (l, omega (arith, f, g))

goes_on :
    (t : Closing) (p : Phase)
    → t.phase ≡ p
    → IsNotified p
    → Holds p t.is_finished t.workers
    → ((p ≡ joined) × All (λ w. w ≡ ended) t.workers) ⊎ ((u : Closing) × Step t u)
goes_on t looping e n h = absurd n
goes_on t flagged e n h = absurd n
goes_on t joining e n h = elim (Turn-next t.is_finished t.workers h.1) [
  | inl all ↦ inr (record t { phase = joined }, joins t e all)
  | inr (vs, r) ↦ inr (record t { workers = vs }, turn t vs r)
]
goes_on t joined e n h = inl (refl, h.1)

-- However the core's thread and its workers interleave, once the workers are notified every run is
-- finite: it takes at most one step for each worker that has not ended, and one more. And as long
-- as not all workers have ended and are joined, some thread can go on: no notification is lost.
pub threads_joined :
    (n k : ℕ) (s : Closing)
    → Run k (launched n) s
    → s.phase ≡ joining
    → (j : ℕ) (t : Closing) → Run j s t
    → (j ≤ pending s.workers + 1)
      × (((t.phase ≡ joined) × All (λ w. w ≡ ended) t.workers) ⊎ ((u : Closing) × Step t u))
threads_joined n k s r p j t q =
    let h = Run-Invariant r refl in
    let notified = subst IsNotified (sym p) tt in
    let (m, f) = Run-Falls q notified h in
    (subst (λ (x : Phase). j ≤ left x s.workers) p f, goes_on t t.phase refl m (Run-Invariant q h))
