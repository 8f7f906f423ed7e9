-- ===== src/Networking/Runtime/Follows.antt =====
-- The network stack's clock follows the simulated time, of src/networking/Runtime.cpp.
use cosidia.Prelude.{
  ℤ, pos, negsuc, ◌+ℤ◌, ◌-ℤ◌, ◌*ℤ◌, ◌≤ℤ◌, ◌<ℤ◌, int_laws, ◌≡◌, refl, arith, List, [], ◌∷◌, ap, ◌∙◌,
  Option,
}
use cosidia.Prelude.Result.{ok}
use cosidia.Core.Clock.{TimePoint, div_trunc}
use cosidia.Networking.Runtime.{
  ManualRuntime, Runtime, get_next_start, trigger, trigger_its, its_advance_to, trigger_all,
  ItsTime, make_runtime,
}

-- A whole number of microseconds survives the way through nanoseconds.
div_trunc-exact : (d : ℤ) → div_trunc (d *ℤ pos 1_000) 1_000 ≡ d
unfolding div_trunc ◌*ℤ◌ ◌-ℤ◌
div_trunc-exact (pos n) = ground arith
div_trunc-exact (negsuc n) = ground arith

back_again : (a b : ℤ) → a +ℤ b -ℤ a ≡ b
back_again a b = omega int_laws

there : (a b : ℤ) → a +ℤ (b -ℤ a) ≡ b
there a b = omega int_laws

module _ {R : Type 0} (manual : ManualRuntime R) where
  next_reached :
      (r : Runtime R) → its_advance_to manual (get_next_start manual r) r ≡ manual.next r.base
  unfolding get_next_start
  next_reached r =
      ap (λ d. r.its_start_time +ℤ div_trunc d 1_000) (back_again r.sim_start_time _)
      ∙ ap (λ d. r.its_start_time +ℤ d) (div_trunc-exact (manual.next r.base -ℤ r.its_start_time))
      ∙ there r.its_start_time (manual.next r.base)

  -- Triggering the runtime at the simulated time that it names for its next callback is triggering
  -- it at the ITS time of that callback, errors included: nothing is lost by the conversion.
  pub trigger-get_next_start :
      (r : Runtime R)
      → trigger manual (get_next_start manual r) r ≡ trigger_its manual (manual.next r.base) r
  unfolding trigger trigger_its
  trigger-get_next_start r = ground (arith, next_reached r)

-- A number of nanoseconds that has passed, and the whole microseconds in it.
abbrev pub Lags : ℤ → ℤ → Type 0
Lags us ns = (us *ℤ pos 1_000 ≤ℤ ns) × (ns <ℤ us *ℤ pos 1_000 +ℤ pos 1_000)

abbrev pub Ascending : TimePoint → List TimePoint → Type 0
Ascending t [] = Unit {0}
Ascending t (u ∷ us) = (t ≤ℤ u) × Ascending u us

abbrev pub last : TimePoint → List TimePoint → TimePoint
last t [] = t
last t (u ∷ us) = last u us

div_trunc-Lags : (d : ℤ) → pos 0 ≤ℤ d → Lags (div_trunc d 1_000) d
unfolding div_trunc ◌*ℤ◌ ◌+ℤ◌
div_trunc-Lags (pos n) h = (ground arith, ground arith)
div_trunc-Lags (negsuc n) h = ground arith

div_trunc-mono : (d e : ℤ) → d ≤ℤ e → div_trunc d 1_000 ≤ℤ div_trunc e 1_000
unfolding div_trunc ◌-ℤ◌
div_trunc-mono (pos m) (pos n) h = ground arith
div_trunc-mono (pos m) (negsuc n) h = ground arith
div_trunc-mono (negsuc m) (pos n) h = ground arith
div_trunc-mono (negsuc m) (negsuc n) h = ground arith

elapsed-mono : (s t u : TimePoint) → t ≤ℤ u → div_trunc (t -ℤ s) 1_000 ≤ℤ div_trunc (u -ℤ s) 1_000
elapsed-mono s t u h = div_trunc-mono (t -ℤ s) (u -ℤ s) (omega int_laws)

pub elapsed-Lags : (s t : TimePoint) → s ≤ℤ t → Lags (div_trunc (t -ℤ s) 1_000) (t -ℤ s)
elapsed-Lags s t h = div_trunc-Lags (t -ℤ s) (omega int_laws)

at_zero : pos 0 ≤ℤ div_trunc (pos 0) 1_000
unfolding div_trunc
at_zero = omega arith

no_time : (s : TimePoint) (d : ℤ) → pos 0 ≤ℤ d → pos 0 ≤ℤ d +ℤ div_trunc (s -ℤ s) 1_000
no_time s d h = omega (int_laws, div_trunc-mono (pos 0) (s -ℤ s) (omega int_laws), h, at_zero)

last-le : (t u : TimePoint) (us : List TimePoint) → Ascending t (u ∷ us) → t ≤ℤ last u us
last-le t u [] a = a.0
last-le t u (v ∷ vs) a = omega (arith, last-le u v vs a.1, a.0)

module _ {R : Type 0} (manual : ManualRuntime R)
    (law : (t : ItsTime) (b : R)
      → (b' : R) × (manual.trigger t b ≡ ok b') × (manual.now b' ≡ t)) where
  -- The runtime was last triggered no later than at `t`.
  record Tracks (t : TimePoint) (r : Runtime R) : Type 0 where
    started : r.sim_start_time ≤ℤ t
    triggered : r.last_trigger ≤ℤ its_advance_to manual t r

  -- A run of triggers from `r` to `r'` that ends at `t`.
  record Reaches (t : TimePoint) (r r' : Runtime R) : Type 0 where
    tracks : Tracks t r'
    now_at : manual.now r'.base ≡ its_advance_to manual t r
    same_sim : r'.sim_start_time ≡ r.sim_start_time
    same_its : r'.its_start_time ≡ r.its_start_time

  trigger-Reaches :
      (t u : TimePoint) (r : Runtime R)
      → Tracks t r
      → t ≤ℤ u
      → (r' : Runtime R) × (trigger manual u r ≡ ok r') × Reaches u r r'
  unfolding trigger trigger_its
  trigger-Reaches t u r h k =
      let at = its_advance_to manual u r in
      let (b', e, n) = law at r.base in
      let later : r.last_trigger ≤ℤ at =
        omega (int_laws, elapsed-mono r.sim_start_time t u k, h.triggered) in
      (
        record r { base = b'; last_trigger = at },
        ground (arith, e, later),
        record {
          tracks = record { started = omega (arith, h.started); triggered = omega arith };
          now_at = n;
          same_sim = refl;
          same_its = refl;
        },
      )

  trigger_all-Reaches :
      (t u : TimePoint) (us : List TimePoint) (r : Runtime R)
      → Tracks t r
      → Ascending t (u ∷ us)
      → (r' : Runtime R) × (trigger_all manual (u ∷ us) r ≡ ok r') × Reaches (last u us) r r'
  unfolding trigger_all
  trigger_all-Reaches t u [] r h a =
      let (r', e, k) = trigger-Reaches t u r h a.0 in (r', ground (arith, e), k)
  trigger_all-Reaches t u (v ∷ vs) r h a =
      let (r', e, k) = trigger-Reaches t u r h a.0 in
      let (r'', e', k') = trigger_all-Reaches u v vs r' k.tracks a.1 in
      (
        r'',
        ground (arith, e, e'),
        record {
          tracks = k'.tracks;
          now_at = ground (arith, k'.now_at, k.same_sim, k.same_its);
          same_sim = k'.same_sim ∙ k.same_sim;
          same_its = k'.same_its ∙ k.same_its;
        },
      )

  fresh :
      (utc_start : Option TimePoint) (start : TimePoint) (r : Runtime R)
      → make_runtime manual utc_start start ≡ ok r
      → (r.sim_start_time ≡ start) × (r.last_trigger ≡ pos 0)
  unfolding make_runtime
  fresh utc_start start r m = (ground (arith, m), ground (arith, m))

  -- Where a runtime is made at a simulated time whose ITS time is not before the clock's epoch, and
  -- a trigger of the manual runtime never throws and sets its clock, every ascending sequence of
  -- simulated times from there on is accepted, and in the end the network stack's clock has
  -- advanced by the whole microseconds of the simulated time that has passed: it lags by less
  -- than one microsecond and is never ahead.
  pub clock_keeps_up :
      (utc_start : Option TimePoint) (start u : TimePoint) (us : List TimePoint) (r : Runtime R)
      → make_runtime manual utc_start start ≡ ok r
      → pos 0 ≤ℤ r.its_start_time
      → Ascending start (u ∷ us)
      → (r' : Runtime R) × (trigger_all manual (u ∷ us) r ≡ ok r')
        × Lags (manual.now r'.base -ℤ r.its_start_time) (last u us -ℤ start)
  clock_keeps_up utc_start start u us r m h a =
      let (e, l) = fresh utc_start start r m in
      let tracks : Tracks start r = record {
        started = ground (arith, e);
        triggered = ground (arith, e, l, h, no_time start r.its_start_time h);
      } in
      let (r', run, k) = trigger_all-Reaches start u us r tracks a in
      let passed = elapsed-Lags start (last u us) (last-le start u us a) in
      (
        r',
        run,
        ground (
          arith,
          passed,
          k.now_at,
          e,
          back_again r.its_start_time (div_trunc (last u us -ℤ r.sim_start_time) 1_000),
        ),
      )
