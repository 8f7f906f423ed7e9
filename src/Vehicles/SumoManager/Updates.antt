-- ===== src/Vehicles/SumoManager/Updates.antt =====
-- The actions that src/mobility/SumoMobilityManager.cpp hands the vehicles.
use cosidia.Prelude.{
  pos, leb_ℤ, ℕ, ◌<◌, ◌≡◌, refl, sym, subst, ◌∙◌, ◌⊎◌, inl, inr, arith, Bool, true, false,
  Bool-cases, List, [], ◌∷◌, String, if◌then◌else◌,
}
use cosidia.Prelude.Result.{Result, ok, ◌>>=◌, >>=-eq-ok}
use text.Mathlib.Text.{◌==◌ as str_eq}
use text.Mathlib.TextEquality.{eq_iff}
use cosidia.Core.Clock.{zero_time}
use cosidia.Core.Action.{Ref, ObjectId, valid}
use cosidia.Kernel.{System}
use cosidia.Radio.Medium.Indications.{Indicates}
use cosidia.Vehicles.IdMapper.{IdMapper}
use cosidia.Vehicles.Traci.{Answers}
use cosidia.Std.Names.{has}
use cosidia.Vehicles.Update.{get_update_for_vehicle}
use cosidia.Vehicles.SumoManager.{SumoManager, at_key, update_vehicles}
use cosidia.Vehicles.SumoManager.Handing.{
  hand_over, Holds, lookup-set_update_for_vehicle, set_update_for_vehicle-Holds, handed,
  update_vehicles-known, update_vehicles-unknown,
}

-- The ids of the vehicles that the manager knows, in order.
unfoldable pub known_ids : IdMapper → List String → Result (List ObjectId)
known_ids m [] = ok []
known_ids m (v ∷ vs) =
    at_key v m >>= λ id. known_ids m vs >>= λ ids. ok (if valid id then id ∷ ids else ids)

ok-inj : {A : Type 0} {a b : A} → ok a ≡ ok b → a ≡ b
ok-inj h = cc

module _ {Real : Type 0} (zero : Real) (lt : String → String → Bool)
    (free : System (SumoManager Real) → Ref) (answers : ℕ → Answers Real) (is_expecting : ℕ → Bool)
    (id_list : List String) (connect : Result (Unit {0})) where
  -- What the loop leaves, from `s` to `s'`, for the actions `ns` to the vehicles `vs`.
  pub record Delivers (a p : Ref) (generator : ObjectId) (vs : List String) (ids : List ObjectId)
      (s : System (SumoManager Real)) (ns : List Ref) (s' : System (SumoManager Real))
      : Type 0 where
    pub delivered : Indicates s'.actions (hand_over (s.actions a) generator p) ns ids
    pub kept : (r : Ref) → r < s.next_action → s'.actions r ≡ s.actions r
    pub holds :
        (v : String) (id : ObjectId)
        → at_key v s.model.id_mapper ≡ ok id
        → valid id ≡ true
        → (has v vs ≡ true) ⊎ Holds v id (s.model.updates p)
        → Holds v id (s'.model.updates p)

  handed-Holds :
      (s : System (SumoManager Real)) (o a p : Ref) (v w : String) (id i : ObjectId)
      → at_key w s.model.id_mapper ≡ ok i
      → at_key v s.model.id_mapper ≡ ok id
      → (str_eq w v ≡ true) ⊎ Holds v id (s.model.updates p)
      → Holds v id ((handed zero s o a p w i).model.updates p)
  unfolding handed get_update_for_vehicle
  handed-Holds s o a p v w id i kw kv h = elim (Bool-cases (str_eq w v)) [
    | inl same ↦
        (let (u, e, f) = set_update_for_vehicle-Holds zero w i (s.model.updates p) in
          (u, ground (arith, eq_iff w v, same, e), ground (arith, eq_iff w v, same, kw, kv, f)))
    | inr other ↦ elim h [
      | inl same ↦ ground (arith, other, same)
      | inr (u, e, f) ↦ (
        u,
        ground (
          arith,
          e,
          lookup-set_update_for_vehicle zero v w (λ u. record u { object_id = i })
              (s.model.updates p) other,
        ),
        f,
      )
    ]
  ]

  split_has :
      (v w : String) (vs : List String) (A : Type 0)
      → (has v (w ∷ vs) ≡ true) ⊎ A
      → (has v vs ≡ true) ⊎ ((str_eq w v ≡ true) ⊎ A)
  unfolding has
  split_has v w vs A (inl h) = elim (Bool-cases (str_eq w v)) [
    | inl same ↦ inr (inl same)
    | inr other ↦ inl (ground (arith, h, other))
  ]
  split_has v w vs A (inr a) = inr (inr a)

  abbrev pub Outcome :
      Ref → Ref → Ref → List String → List ObjectId → System (SumoManager Real) → Type 0
  Outcome o a p vs ids s =
      (ns : List Ref) × (s' : System (SumoManager Real)) × (update_vehicles zero lt free answers
          is_expecting id_list connect o a p vs s
        ≡ ok (ns, s'))
      × Delivers a p (s.objects o).object_id vs ids s ns s'

  no_vehicle :
      (o a p : Ref) (ids : List ObjectId) (s : System (SumoManager Real))
      → [] ≡ ids
      → Outcome o a p [] ids s
  unfolding update_vehicles has
  no_vehicle o a p ids s e =
      subst (λ ids. Outcome o a p [] ids s) e
        (
          [],
          s,
          refl,
          record {
            delivered = tt;
            kept = λ r h. refl;
            holds = λ v id k h c. elim c [ inl n ↦ ground (arith, n) | inr d ↦ d ];
          },
        )

  unknown_vehicle :
      (o a p : Ref) (v : String) (vs : List String) (id : ObjectId) (ids : List ObjectId)
      (s : System (SumoManager Real))
      → at_key v s.model.id_mapper ≡ ok id
      → valid id ≡ false
      → Outcome o a p vs ids s
      → Outcome o a p (v ∷ vs) ids s
  unknown_vehicle o a p v vs id ids s e h (ns, s', run, d) = (
    ns,
    s',
    update_vehicles-unknown zero lt free answers is_expecting id_list connect o a p v vs id s e h
        ∙ ground (arith, run),
    record {
      delivered = d.delivered;
      kept = d.kept;
      holds = λ w i k n c. elim (split_has w v vs (Holds w i (s.model.updates p)) c) [
        | inl c ↦ d.holds w i k n (inl c)
        | inr (inl same) ↦ ground (arith, eq_iff v w, same, e, h, k, n)
        | inr (inr c) ↦ d.holds w i k n (inr c)
      ];
    },
  )

  known_vehicle :
      (o a p : Ref) (v : String) (vs : List String) (id : ObjectId) (ids : List ObjectId)
      (s : System (SumoManager Real))
      → at_key v s.model.id_mapper ≡ ok id
      → valid id ≡ true
      → leb_ℤ zero_time (hand_over (s.actions a) (pos 0) p id).start_time ≡ true
      → a < s.next_action
      → Outcome o a p vs ids (handed zero s o a p v id)
      → Outcome o a p (v ∷ vs) (id ∷ ids) s
  unfolding handed
  known_vehicle o a p v vs id ids s e h z l (ns, s', run, d) =
      let same : (handed zero s o a p v id).actions a ≡ s.actions a = ground arith in
      (
        s.next_action ∷ ns,
        s',
        update_vehicles-known zero lt free answers is_expecting id_list connect o a p v vs id s e h
              z
            ∙ ground (arith, run),
        record {
          delivered = (
            d.kept s.next_action (omega arith) ∙ ground arith,
            subst (λ x. Indicates s'.actions (hand_over x (s.objects o).object_id p) ns ids) same
                d.delivered,
          );
          kept = λ r k. d.kept r (omega (arith, k)) ∙ ground (arith, k);
          holds = λ w i k n c.
              d.holds w i k n (elim (split_has w v vs (Holds w i (s.model.updates p)) c) [
                | inl c ↦ inl c
                | inr c ↦ inr (handed-Holds s o a p w v i id e k c)
              ]);
        },
      )

  -- Where every vehicle to update has an entry in the mapper, and the millisecond after the end of
  -- the manager's action is not before the start of the simulation, the loop over them returns.
  -- It creates one "SUMO" action for each vehicle whose id is known, in order, which is addressed to
  -- that id, starts then and carries the updates; every action that existed is as before; and in the
  -- updates the entry of each such vehicle holds its id, which is what the vehicle checks.
  pub update_vehicles-Delivers :
      (o a p : Ref) (vs : List String) (ids : List ObjectId) (s : System (SumoManager Real))
      → known_ids s.model.id_mapper vs ≡ ok ids
      → leb_ℤ zero_time (hand_over (s.actions a) (pos 0) p (pos 0)).start_time ≡ true
      → a < s.next_action
      → (ns : List Ref) × (s' : System (SumoManager Real)) × (update_vehicles zero lt free answers
            is_expecting id_list connect o a p vs s
          ≡ ok (ns, s'))
        × Delivers a p (s.objects o).object_id vs ids s ns s'
  unfolding known_ids handed
  update_vehicles-Delivers o a p [] ids s k z l = no_vehicle o a p ids s (ok-inj k)
  update_vehicles-Delivers o a p (v ∷ vs) ids s k z l =
      let m = s.model.id_mapper in
      let (id, e, k1) =
        >>=-eq-ok (at_key v m)
          (λ id. known_ids m vs >>= λ ids. ok (if valid id then id ∷ ids else ids)) k in
      let (rest, f, k2) =
        >>=-eq-ok (known_ids m vs) (λ ids. ok (if valid id then id ∷ ids else ids)) k1 in
      elim (Bool-cases (valid id)) [
        | inl known ↦
            let s1 = handed zero s o a p v id in
            let same : s1.actions a ≡ s.actions a = ground arith in
            subst (λ ids. Outcome o a p (v ∷ vs) ids s) (ground (arith, k2, known))
              (known_vehicle o a p v vs id rest s e known z l (
                update_vehicles-Delivers o a p vs rest s1 f
                  (subst (λ x. leb_ℤ zero_time (hand_over x (pos 0) p (pos 0)).start_time ≡ true)
                    (sym same) z)
                  (omega (arith, l))))
        | inr unknown ↦
            subst (λ ids. Outcome o a p (v ∷ vs) ids s) (ground (arith, k2, unknown))
              (unknown_vehicle o a p v vs id rest s e unknown
                (update_vehicles-Delivers o a p vs rest s f z l))
      ]
