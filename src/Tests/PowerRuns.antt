-- ===== src/Tests/PowerRuns.antt =====
-- Runs of LogDistancePhysicalDecider, src/radio/PhysicalDecider.cpp.
use cosidia.Prelude.{
  ℤ, pos, negsuc, ◌+ℤ◌, ◌-ℤ◌, ◌*ℤ◌, leb_ℤ, ◌≡◌, refl, ℕ, ◌-◌, ◌==◌, ltb, leb, Bool, true, false,
  not, Option, none, some, List, [], ◌∷◌, arith, if◌then◌else◌, +ℤ_parts, -ℤ_parts,
}
use cosidia.Prelude.Result.{ok}
use cosidia.Std.Set.{member}
use cosidia.Core.Action.{ObjectId}
use cosidia.Radio.Transmission.{Receiver}
use cosidia.Radio.Decider.Power.{Floats, receivers_by_power}
use cosidia.Radio.Decider.Power.Nearer
use cosidia.Radio.Decider.Power.Nearer.{IsOrdered}

-- Floating point numbers that are whole, `none` for NaN: the logarithm is rounded down to 0, 1 or 2, of
-- zero it is -400, and of a negative number it is NaN.
abbrev both : (ℤ → ℤ → ℤ) → Option ℤ → Option ℤ → Option ℤ
both op none b = none
both op (some a) none = none
both op (some a) (some b) = some (op a b)

abbrev log_whole : ℤ → Option ℤ
log_whole (pos n) =
    some (
      if n == 0 then negsuc 399 else if ltb n 10 then pos 0 else if ltb n 100 then pos 1 else pos 2)
log_whole (negsuc n) = none

abbrev at_most : Option ℤ → Option ℤ → Bool
at_most none b = false
at_most (some a) none = false
at_most (some a) (some b) = leb_ℤ a b

abbrev whole : Floats (Option ℤ)
whole = record {
  plus = both ◌+ℤ◌;
  minus = both (λ a b. a -ℤ b);
  times = both ◌*ℤ◌;
  log10 = λ a. elim a [ none ↦ none | some n ↦ log_whole n ];
  above = λ a b. elim (at_most b a) [ false ↦ false | true ↦ not (at_most a b) ];
  ten = some (pos 10);
  minus_98 = some (negsuc 97);
  transmission_power = some (pos 23);
}

abbrev apart : ℕ → ℕ → Option ℤ
apart a b = some (pos (if leb a b then b - a else a - b))

abbrev quiet : ℕ → Option ℤ
quiet n = some (pos n)

abbrev Le : Option ℤ → Option ℤ → Type 0
Le a b = at_most a b ≡ true

log10_whole_mono :
    (a b : Option ℤ) → Le (some (pos 0)) a → Le a b → Le (whole.log10 a) (whole.log10 b)
log10_whole_mono none b z h = ground (arith, h)
log10_whole_mono (some a) none z h = ground (arith, h)
log10_whole_mono (some (pos a)) (some (pos b)) z h = ground arith
log10_whole_mono (some (pos a)) (some (negsuc b)) z h = ground (arith, h)
log10_whole_mono (some (negsuc a)) (some b) z h = ground (arith, z)

times_whole_mono :
    (a b : Option ℤ) → Le a b → Le (both ◌*ℤ◌ (some (pos 20)) a) (both ◌*ℤ◌ (some (pos 20)) b)
unfolding ◌*ℤ◌
times_whole_mono none b h = ground (arith, h)
times_whole_mono (some a) none h = ground (arith, h)
times_whole_mono (some (pos a)) (some (pos b)) h = ground (arith, h)
times_whole_mono (some (pos a)) (some (negsuc b)) h = ground (arith, h)
times_whole_mono (some (negsuc a)) (some (pos b)) h = ground (arith, h)
times_whole_mono (some (negsuc a)) (some (negsuc b)) h = ground (arith, h)

plus_whole_mono :
    (n : ℕ) (a b : Option ℤ) → Le a b → Le (whole.plus a (quiet n)) (whole.plus b (quiet n))
plus_whole_mono n none b h = ground (arith, h)
plus_whole_mono n (some a) none h = ground (arith, h)
plus_whole_mono n (some a) (some b) h = ground (arith, h, +ℤ_parts a (pos n), +ℤ_parts b (pos n))

minus_whole_anti :
    (a b : Option ℤ) → Le a b → Le (whole.minus (some (pos 23)) b) (whole.minus (some (pos 23)) a)
minus_whole_anti none b h = ground (arith, h)
minus_whole_anti (some a) none h = ground (arith, h)
minus_whole_anti (some a) (some b) h = ground (arith, h, -ℤ_parts (pos 23) a, -ℤ_parts (pos 23) b)

above_whole_le :
    (a b : Option ℤ)
    → Le a b
    → whole.above a whole.minus_98 ≡ true
    → whole.above b whole.minus_98 ≡ true
above_whole_le none b h p = ground (arith, h)
above_whole_le (some a) none h p = ground (arith, h)
above_whole_le (some a) (some b) h p = ground (arith, h, p)

whole-IsOrdered : IsOrdered whole (some (pos 0)) (some (pos 2)) quiet Le
unfolding ◌*ℤ◌
whole-IsOrdered = record {
  log10_mono = log10_whole_mono;
  times_mono = times_whole_mono;
  plus_mono = plus_whole_mono;
  minus_anti = minus_whole_anti;
  above_le = above_whole_le;
}

abbrev seen_at : ℕ → List (ObjectId × Receiver ℕ)
seen_at p =
    (pos 3, record { lowest_layer = pos 3; mobility = 12; receiver_context = some p })
    ∷ (pos 4, record { lowest_layer = pos 4; mobility = 30; receiver_context = some 14 })
    ∷ []

nearer_hears_example :
    (ids : List ObjectId) × (ids' : List ObjectId) × (receivers_by_power whole apart
        (some (pos 2))
        quiet
        0
        10
        (seen_at 40)
      ≡ ok (ids, 2))
    × (receivers_by_power whole apart (some (pos 2)) quiet 0 10 (seen_at 13) ≡ ok (ids', 2))
    × ((id : ObjectId) → member id ids ≡ true → member id ids' ≡ true)
nearer_hears_example =
    Nearer.nearer_hears whole apart (some (pos 0)) (some (pos 2)) quiet Le 10 whole-IsOrdered 0
      (seen_at 40) (seen_at 13)
      (refl, (40, 13, refl, refl, refl, refl), (refl, (14, 14, refl, refl, refl, refl), tt))
