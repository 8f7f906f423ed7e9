-- ===== src/Radio/Decider/Power/Nearer.antt =====
-- Reception by power falls with the distance, src/radio/PhysicalDecider.cpp.
use cosidia.Prelude.{
  ◌≡◌, refl, ℕ, ◌+◌, Bool, true, false, some, List, [], ◌∷◌, arith, if◌then◌else◌, length,
}
use cosidia.Prelude.Result.{ok}
use cosidia.Std.Set.{member}
use cosidia.Core.Action.{ObjectId}
use cosidia.Radio.Transmission.{Receiver}
use cosidia.Radio.Decider.Power.{Floats, path_loss, receivers_by_power}

-- How the operations of double go with their order `le`, which does not hold of NaN, rounding
-- included: the logarithm on numbers that are not below zero; the factor of the path loss, which is
-- positive and finite, as the noise and the power are finite.
pub record IsOrdered {F : Type 0} (f : Floats F) (zero exponent : F) (noise : ℕ → F)
    (le : F → F → Type 0) : Type 0 where
  pub log10_mono : (a b : F) → le zero a → le a b → le (f.log10 a) (f.log10 b)
  pub times_mono :
      (a b : F)
      → le a b
      → le (f.times (f.times f.ten exponent) a) (f.times (f.times f.ten exponent) b)
  pub plus_mono : (n : ℕ) (a b : F) → le a b → le (f.plus a (noise n)) (f.plus b (noise n))
  pub minus_anti :
      (a b : F) → le a b → le (f.minus f.transmission_power b) (f.minus f.transmission_power a)
  pub above_le : (a b : F) → le a b → f.above a f.minus_98 ≡ true → f.above b f.minus_98 ≡ true

kept :
    (b b' : Bool) (i j : ObjectId) (ids ids' : List ObjectId)
    → i ≡ j
    → (b ≡ true → b' ≡ true)
    → ((id : ObjectId) → member id ids ≡ true → member id ids' ≡ true)
    → (id : ObjectId) → member id (if b then i ∷ ids else ids) ≡ true
    → member id (if b' then j ∷ ids' else ids') ≡ true
unfolding member
kept false false i j ids ids' e h sub id m = sub id m
kept false true i j ids ids' e h sub id m = ground (arith, sub id, m)
kept true false i j ids ids' e h sub id m = cc (h refl)
kept true true i j ids ids' e h sub id m = ground (arith, sub id, m, e)

module _ {F Context : Type 0} (f : Floats F) (distance : Context → Context → F) (zero exponent : F)
    (noise : ℕ → F) (le : F → F → Type 0) (tx : Context) where
  -- The same receivers, of which none is farther away in the second list, and at no negative distance.
  abbrev pub Approaches :
      List (ObjectId × Receiver Context) → List (ObjectId × Receiver Context) → Type 0
  Approaches [] [] = Unit {0}
  Approaches [] (r ∷ rs) = ⊥
  Approaches (r ∷ rs) [] = ⊥
  Approaches ((i, r) ∷ rs) ((j, q) ∷ qs) =
      (i ≡ j)
      × ((far : Context) × (near : Context) × (r.receiver_context ≡ some far)
          × (q.receiver_context ≡ some near)
          × le zero (distance tx near)
          × le (distance tx near) (distance tx far))
      × Approaches rs qs

  arrives : ℕ → Context → Bool
  arrives n rx =
      f.above
        (f.minus f.transmission_power (path_loss f distance exponent noise n (distance tx rx)))
        f.minus_98

  arrives_nearer :
      IsOrdered f zero exponent noise le
      → (n : ℕ) (far near : Context) → le zero (distance tx near)
      → le (distance tx near) (distance tx far)
      → arrives n far ≡ true
      → arrives n near ≡ true
  unfolding arrives path_loss
  arrives_nearer o n far near z h =
      o.above_le _ _
        (o.minus_anti _ _ (o.plus_mono n _ _ (o.times_mono _ _ (o.log10_mono _ _ z h))))

  -- Where the arithmetic goes with the order of numbers, NaN apart, as that of doubles does with a
  -- positive factor and finite noise, and no receiver of the second list
  -- is farther away than in the first or at a negative distance, then with the same noise both decisions return after one draw for each receiver, and each receiver that is
  -- reached in the first list is reached in the second.
  pub nearer_hears :
      IsOrdered f zero exponent noise le
      → (n : ℕ) (rs qs : List (ObjectId × Receiver Context)) → Approaches rs qs
      → (ids : List ObjectId) × (ids' : List ObjectId) × (receivers_by_power f distance exponent
            noise n tx rs
          ≡ ok (ids, n + length rs))
        × (receivers_by_power f distance exponent noise n tx qs ≡ ok (ids', n + length rs))
        × ((id : ObjectId) → member id ids ≡ true → member id ids' ≡ true)
  unfolding receivers_by_power arrives
  nearer_hears o n [] [] h = ([], [], ground arith, ground arith, λ id m. m)
  nearer_hears o n [] (q ∷ qs) h = absurd h
  nearer_hears o n (r ∷ rs) [] h = absurd h
  nearer_hears o n ((i, r) ∷ rs) ((j, q) ∷ qs) (e, (far, near, fr, nq, z, closer), h) =
      let (ids, ids', e1, e2, sub) = nearer_hears o (n + 1) rs qs h in
      let further = arrives n far in
      let better = arrives n near in
      (
        if further then i ∷ ids else ids,
        if better then j ∷ ids' else ids',
        ground (arith, fr, e1),
        ground (arith, nq, e2),
        kept further better i j ids ids' e (arrives_nearer o n far near z closer) sub,
      )
