-- ===== src/Core/Symbol/Interning.antt =====
-- The values and the comparison of symbols, src/core/Symbol.cpp.
use cosidia.Prelude.{
  ◌≡◌, refl, true, ◌⊎◌, inl, inr, some, List, [], ◌∷◌, String, arith, sym, ◌∙◌, ap, Bool, false,
}
use cosidia.Prelude.Result.{ok}
use text.Mathlib.Text.{◌==◌ as str_eq}
use text.Mathlib.TextEquality.{eq_iff}
use cosidia.Core.Action.{Ref}
use cosidia.Core.Symbol.{
  Memory, SymbolData, string_view, string, contents, equal_data, copy, SymbolSet, IsSymbolSet,
  find_or_create_symbol, value, equal_symbols, create_all,
}

-- Each text can be read when its symbol is created.
abbrev pub Readable : List (Memory × Ref) → Type 0
Readable [] = Unit {0}
Readable ((m, sv) ∷ cs) = ((s : String) × (m sv ≡ some s)) × Readable cs

copy_view :
    (m : Memory) (sv : Ref) (s : String) (e : SymbolData)
    → m sv ≡ some s
    → copy m (string_view sv) ≡ ok e
    → e ≡ string s
unfolding copy contents
copy_view m sv s e h c = ground (arith, h, c)

readable : (m : Memory) (sv : Ref) (s : String) → m sv ≡ some s → contents m (string_view sv) ≡ ok s
unfolding contents
readable m sv s h = ground (arith, h)

owned_text : (m : Memory) (u : String) (e : SymbolData) → e ≡ string u → contents m e ≡ ok u
unfolding contents
owned_text m u e h = ground (arith, h)

-- An element that is equal to a view, or a copy of it, has the view's text.
same_text :
    (m : Memory) (sv : Ref) (s u : String) (e : SymbolData)
    → m sv ≡ some s
    → e ≡ string u
    → (equal_data m e (string_view sv) ≡ ok true) ⊎ (copy m (string_view sv) ≡ ok e)
    → e ≡ string s
unfolding equal_data copy contents
same_text m sv s u e h o (inl q) = ground (arith, h, o, q, eq_iff u s)
same_text m sv s u e h o (inr c) = copy_view m sv s e h c

equal_to_view :
    (m : Memory) (sv : Ref) (s : String)
    → m sv ≡ some s
    → equal_data m (string s) (string_view sv) ≡ ok true
unfolding equal_data contents
equal_to_view m sv s h = ground (arith, h, eq_iff s s)

bool_iff : (a b : Bool) → (a ≡ true → b ≡ true) → (b ≡ true → a ≡ true) → a ≡ b
bool_iff false false f g = refl
bool_iff false true f g = g refl
bool_iff true false f g = sym (f refl)
bool_iff true true f g = refl

module _ {S I : Type 0} (set : SymbolSet S I) (laws : IsSymbolSet set) where
  -- The elements do not depend on the memory.
  abbrev IsOwned : S → Type 0
  IsOwned t = (j : I) (e : SymbolData) → set.element j t ≡ some e → (u : String) × (e ≡ string u)

  abbrev Grows : S → S → Type 0
  Grows t t' = (j : I) (e : SymbolData) → set.element j t ≡ some e → set.element j t' ≡ some e

  create_lem :
      (m : Memory) (sv : Ref) (s : String) (t : S)
      → m sv ≡ some s
      → IsOwned t
      → (t' : S) × (i : I) × (find_or_create_symbol set m sv t ≡ ok (t', i))
        × IsOwned t'
        × Grows t t'
        × (set.element i t' ≡ some (string s))
        × ((j : I) → set.element j t ≡ some (string s) → j ≡ i)
  unfolding find_or_create_symbol
  create_lem m sv s t h owned =
      let d = string_view sv in
      let (t', i, e) =
        laws.returns m d t s (readable m sv s h)
          (λ j x k. let (u, o) = owned j x k in (u, owned_text m u x o)) in
      let owned' : IsOwned t' = λ j x k. elim (laws.adds m d t t' i j x e k) [
        | inl old ↦ owned j x old
        | inr new ↦ (s, copy_view m sv s x h new)
      ] in
      let (x, k, q) = laws.found m d t t' i e in
      let (u, o) = owned' i x k in
      (
        t',
        i,
        e,
        owned',
        λ j y. laws.kept m d t t' i j y e,
        cc (k, same_text m sv s u x h o q),
        λ j k. laws.unique m d t t' i j (string s) e k (equal_to_view m sv s h),
      )

  create_all_lem :
      (cs : List (Memory × Ref)) (t : S)
      → Readable cs
      → IsOwned t
      → (t' : S) × (create_all set cs t ≡ ok t') × IsOwned t' × Grows t t'
  unfolding create_all
  create_all_lem [] t r owned = (t, refl, owned, λ j e h. h)
  create_all_lem ((m, sv) ∷ cs) t ((s, h), r) owned =
      let (t1, i, e, owned1, grows, _, _) = create_lem m sv s t h owned in
      let (t2, f, owned2, grows2) = create_all_lem cs t1 r owned1 in
      (t2, ground (arith, e, f), owned2, λ j d k. grows2 j d (grows j d k))

  empty-IsOwned : IsOwned set.empty
  empty-IsOwned j e h = cc (laws.nothing j)

  value_owned :
      (now : Memory) (i : I) (t : S) (s : String)
      → set.element i t ≡ some (string s)
      → value set now i t ≡ ok s
  unfolding value contents
  value_owned now i t s h = ground (arith, h)

  same_texts :
      (s u : String) (t2 t3 : S) (i j : I)
      → set.element i t2 ≡ some (string s)
      → set.element i t3 ≡ some (string s)
      → set.element j t3 ≡ some (string u)
      → ((k : I) → set.element k t2 ≡ some (string u) → k ≡ j)
      → equal_symbols set i j ≡ str_eq s u
  unfolding equal_symbols
  same_texts s u t2 t3 i j a b c only =
      let forth : s ≡ u → i ≡ j = λ e. only i (a ∙ ap (λ x. some (string x)) e) in
      let back : i ≡ j → s ≡ u = λ e. ground (arith, ap (λ k. set.element k t3) e, b, c) in
      bool_iff (set.same i j) (str_eq s u) (λ h. (eq_iff s u).1 (back ((laws.same_iff i j).0 h)))
        (λ h. (laws.same_iff i j).1 (forth ((eq_iff s u).0 h)))

  -- Where the set does as TBB documents: from the empty set, with any creations of symbols before, between and after, and each text
  -- readable at the time when its symbol is created: all creations return; from then on, whatever
  -- the memory behind the views has become, the values of two of the symbols are the texts that they
  -- were created from; and the operator == tells whether these are equal.
  pub symbols_are_texts :
      (before between later : List (Memory × Ref)) (m m' : Memory) (sv sv' : Ref) (s u : String)
      → Readable before
      → Readable between
      → Readable later
      → m sv ≡ some s
      → m' sv' ≡ some u
      → (t0 : S) × (t1 : S) × (t2 : S) × (t3 : S) × (t4 : S) × (i : I) × (j : I) × (create_all set
            before set.empty
          ≡ ok t0)
        × (find_or_create_symbol set m sv t0 ≡ ok (t1, i))
        × (create_all set between t1 ≡ ok t2)
        × (find_or_create_symbol set m' sv' t2 ≡ ok (t3, j))
        × (create_all set later t3 ≡ ok t4)
        × ((now : Memory) → (value set now i t4 ≡ ok s) × (value set now j t4 ≡ ok u))
        × (equal_symbols set i j ≡ str_eq s u)
  symbols_are_texts before between later m m' sv sv' s u r0 r1 r2 h h' =
      let (t0, e0, o0, _) = create_all_lem before set.empty r0 empty-IsOwned in
      let (t1, i, e1, o1, _, f1, _) = create_lem m sv s t0 h o0 in
      let (t2, e2, o2, g2) = create_all_lem between t1 r1 o1 in
      let (t3, j, e3, o3, g3, f3, only) = create_lem m' sv' u t2 h' o2 in
      let (t4, e4, _, g4) = create_all_lem later t3 r2 o3 in
      let first = g2 i (string s) f1 in
      let second = g3 i (string s) first in
      (
        t0,
        t1,
        t2,
        t3,
        t4,
        i,
        j,
        e0,
        e1,
        e2,
        e3,
        e4,
        λ now. (
          value_owned now i t4 s (g4 i (string s) second),
          value_owned now j t4 u (g4 j (string u) f3),
        ),
        same_texts s u t2 t3 i j first second f3 only,
      )
