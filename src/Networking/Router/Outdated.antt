-- ===== src/Networking/Router/Outdated.antt =====
-- The loop of initRouter in src/networking/Router.cpp, which lets the callbacks run that lie in the
-- past and drops what they send.
use cosidia.Prelude.{
  ℤ, pos, negsuc, ◌-ℤ◌, ◌*ℤ◌, ◌≤ℤ◌, ◌<ℤ◌, leb_ℤ, ℕ, zero, suc, ◌≤◌, ◌<◌, ◌≡◌, refl, arith, true,
  false, Bool-cases, leb→le, some, List, [], ◌∷◌, length, inl, inr, ◌∙◌,
}
use cosidia.Prelude.Result.{ok}
use cosidia.Networking.Runtime.{Runtime}
use cosidia.Networking.Runtime
use cosidia.Networking.AccessInterface.{AccessInterface, drop_transmission, request}
use cosidia.Networking.Dcc.{DccRequest, AccessRequest, pass_through}
use cosidia.Radio.Transmission.{new_transmission}
use cosidia.Vehicles.Vehicle.{VehicleContext}
use cosidia.Networking.Router.{Vanetza, Router, Base}
use cosidia.Networking.Router.Stack.{manual, request_all, absorb, trigger_stack_its, drop_outdated}

scaled : (d : ℤ) → leb_ℤ (d *ℤ pos 1_000) (pos 0) ≡ leb_ℤ d (pos 0)
unfolding ◌*ℤ◌
scaled (pos n) = ground arith
scaled (negsuc n) = ground arith

not_after : (a b : ℤ) → leb_ℤ (b -ℤ a) (pos 0) ≡ leb_ℤ b a
unfolding ◌-ℤ◌
not_after a b = ground arith

module _ {V Real Address Profile Category Packet : Type 0}
    (van : Vanetza V Real Address Profile Category Packet) where
  abbrev pub Interface : Type 0
  Interface = AccessInterface (VehicleContext Real) (AccessRequest Address Category × Packet)

  -- Two interfaces with no request that know the same receivers.
  pub record Idle (i i' : Interface) : Type 0 where
    pub idle : i'.has_request ≡ false
    pub same_cache : i'.object_cache ≡ i.object_cache
    pub same_query : i'.cache_query ≡ i.cache_query
    pub same_type : i'.request_object_type ≡ i.request_object_type

  request_all-one :
      (requests : List (DccRequest Address Profile × Packet)) (i : Interface)
      → length requests ≤ 1
      → i.has_request ≡ false
      → (i' : Interface) × (request_all van requests (some i) ≡ ok (some i'))
        × Idle i (drop_transmission i')
  unfolding request_all request drop_transmission
  request_all-one [] i l h =
      (i, refl, record { idle = refl; same_cache = refl; same_query = refl; same_type = refl })
  request_all-one ((q, packet) ∷ []) i l h = (
    record i {
      current_transmission =
          some (new_transmission (pass_through van.map_profile_onto_ac q, packet));
      has_request = true;
    },
    ground (arith, h),
    record { idle = refl; same_cache = refl; same_query = refl; same_type = refl },
  )
  request_all-one (q ∷ q' ∷ rest) i l h = ground arith

  loop_test :
      (runtime : Runtime (Base V Address Profile Packet))
      → leb_ℤ (Runtime.get_duration_now_to_next (manual van) runtime) (pos 0)
        ≡ leb_ℤ (van.next runtime.base.0) (van.now runtime.base.0)
  unfolding Runtime.get_duration_now_to_next manual
  loop_test runtime = scaled _ ∙ not_after _ _

  -- The runtime after a trigger at its next callback.
  abbrev next_runtime :
      Runtime (Base V Address Profile Packet) → Runtime (Base V Address Profile Packet)
  next_runtime runtime =
      let v = runtime.base.0 in
      record runtime { base = ((van.trigger (van.next v) v).0, []); last_trigger = van.next v }

  trigger_next :
      (runtime : Runtime (Base V Address Profile Packet)) (i i' : Interface)
      (r : Router V Real Address Profile Category Packet)
      → runtime.base.1 ≡ []
      → runtime.last_trigger ≤ℤ van.next runtime.base.0
      → request_all van (van.trigger (van.next runtime.base.0) runtime.base.0).1 (some i)
        ≡ ok (some i')
      → trigger_stack_its van
          (van.next runtime.base.0)
          (record r { runtime = some runtime; access_interface = some i })
        ≡ ok (record r { runtime = some (next_runtime runtime); access_interface = some i' })
  unfolding trigger_stack_its Runtime.trigger_its absorb manual
  trigger_next runtime i i' r e t h = ground (arith, e, h)

module _ {V Real Address Profile Category Packet : Type 0}
    (van : Vanetza V Real Address Profile Category Packet) (due : V → ℕ)
    (law : (v : V)
      → van.next v ≤ℤ van.now v
      → (due (van.trigger (van.next v) v).0 < due v)
        × (van.next v ≤ℤ van.next (van.trigger (van.next v) v).0)
        × (length (van.trigger (van.next v) v).1 ≤ 1)) where
  -- Where a trigger at the next callback leaves fewer callbacks due, of which none is earlier, and
  -- lets at most one transmission be requested, the loop of initRouter ends after at most as many
  -- rounds as callbacks are due at first, with no error: then the next callback lies in the future, no
  -- request is pending, and the cache of the access interface and its query are as before.
  pub drop_outdated_ends :
      (fuel : ℕ) (runtime : Runtime (Base V Address Profile Packet)) (i : Interface van)
      (r : Router V Real Address Profile Category Packet)
      → due runtime.base.0 < fuel
      → runtime.base.1 ≡ []
      → runtime.last_trigger ≤ℤ van.next runtime.base.0
      → i.has_request ≡ false
      → (runtime' : Runtime (Base V Address Profile Packet)) × (i' : Interface van) × (drop_outdated
            van fuel
            (record r { runtime = some runtime; access_interface = some i })
          ≡ ok (record r { runtime = some runtime'; access_interface = some i' }))
        × (van.now runtime'.base.0 <ℤ van.next runtime'.base.0)
        × Idle van i i'
  unfolding drop_outdated
  drop_outdated_ends zero runtime i r f e t h = ground arith
  drop_outdated_ends (suc fuel) runtime i r f e t h =
      elim (Bool-cases (leb_ℤ (van.next runtime.base.0) (van.now runtime.base.0))) [
        | inr late ↦ (
          runtime,
          i,
          ground (arith, loop_test van runtime, late),
          ground (arith, late),
          record { idle = h; same_cache = refl; same_query = refl; same_type = refl },
        )
        | inl early ↦
            let v = runtime.base.0 in
            let (fewer, later, one) = law v (leb→le _ _ early) in
            let (i', requested, k) = request_all-one van (van.trigger (van.next v) v).1 i one h in
            let (runtime', i'', run, ahead, k') =
              drop_outdated_ends fuel (next_runtime van runtime) (drop_transmission i') r
                (omega (arith, fewer, f)) refl later k.idle in
            (
              runtime',
              i'',
              ground (
                arith,
                loop_test van runtime,
                early,
                trigger_next van runtime i i' r e t requested,
                run,
              ),
              ahead,
              record {
                idle = k'.idle;
                same_cache = k'.same_cache ∙ k.same_cache;
                same_query = k'.same_query ∙ k.same_query;
                same_type = k'.same_type ∙ k.same_type;
              },
            )
      ]
