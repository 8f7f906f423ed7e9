-- ===== src/Tests/SymbolRuns.antt =====
-- Runs of src/core/Symbol.cpp.
use cosidia.Prelude.{
  ◌≡◌, refl, true, ◌⊎◌, inl, inr, none, some, List, [], ◌∷◌, ◌==◌, String, arith, if◌then◌else◌,
  Bool-cases,
}
use cosidia.Prelude.Result.{ok, ◌>>=◌, Result-cases}
use text.Mathlib.Text.{◌==◌ as str_eq}
use text.Mathlib.TextEquality.{eq_iff}
use cosidia.Std.Names.{has}
use cosidia.Core.Symbol.{
  Memory, SymbolData, string, contents, equal_data, copy, SymbolSet, IsSymbolSet,
  find_or_create_symbol, value, equal_symbols, create_all,
}
use cosidia.Core.Symbol.Interning

-- The iterator to a text is the text itself.
texts : SymbolSet (List String) String
unfolding has contents
texts = record {
  empty = [];
  insert = λ m d t. (do s ← contents m d; ok (s ∷ t, s));
  element = λ i t. if has i t then some (string i) else none;
  same = str_eq;
}

texts_returns :
    (m : Memory) (d : SymbolData) (t : List String) (s : String)
    → contents m d ≡ ok s
    → (t' : List String) × (i : String) × (texts.insert m d t ≡ ok (t', i))
unfolding texts
texts_returns m d t s h = (s ∷ t, s, ground (arith, h))

inserted :
    (m : Memory) (d : SymbolData) (t t' : List String) (i : String)
    → texts.insert m d t ≡ ok (t', i)
    → (contents m d ≡ ok i) × (t' ≡ i ∷ t)
unfolding texts
inserted m d t t' i h = elim (Result-cases (contents m d)) [
  | inl (x, c) ↦ ground (arith, c, h)
  | inr (s, c) ↦ (ground (arith, c, h), ground (arith, c, h))
]

texts_kept :
    (m : Memory) (d : SymbolData) (t t' : List String) (i j : String) (e : SymbolData)
    → texts.insert m d t ≡ ok (t', i)
    → texts.element j t ≡ some e
    → texts.element j t' ≡ some e
unfolding texts has contents
texts_kept m d t t' i j e h k = ground (arith, h, k)

texts_adds :
    (m : Memory) (d : SymbolData) (t t' : List String) (i j : String) (e : SymbolData)
    → texts.insert m d t ≡ ok (t', i)
    → texts.element j t' ≡ some e
    → (texts.element j t ≡ some e) ⊎ (copy m d ≡ ok e)
unfolding texts has contents copy
texts_adds m d t t' i j e h k =
    let (c, g) = inserted m d t t' i h in
    elim (Bool-cases (str_eq i j)) [
      | inl same ↦ inr (ground (arith, c, g, k, same, eq_iff i j))
      | inr other ↦ inl (ground (arith, c, g, k, other))
    ]

texts_found :
    (m : Memory) (d : SymbolData) (t t' : List String) (i : String)
    → texts.insert m d t ≡ ok (t', i)
    → (e : SymbolData) × (texts.element i t' ≡ some e)
      × ((equal_data m e d ≡ ok true) ⊎ (copy m d ≡ ok e))
unfolding texts has contents copy
texts_found m d t t' i h =
    let (c, g) = inserted m d t t' i h in
    (string i, ground (arith, g, eq_iff i i), inr (ground (arith, c, g)))

texts_unique :
    (m : Memory) (d : SymbolData) (t t' : List String) (i j : String) (e : SymbolData)
    → texts.insert m d t ≡ ok (t', i)
    → texts.element j t ≡ some e
    → equal_data m e d ≡ ok true
    → j ≡ i
unfolding texts has contents equal_data
texts_unique m d t t' i j e h k q =
    let (c, g) = inserted m d t t' i h in ground (arith, c, g, k, q, eq_iff j i)

texts-IsSymbolSet : IsSymbolSet texts
unfolding texts has
texts-IsSymbolSet = record {
  nothing = λ i. refl;
  returns = λ m d t s h all. texts_returns m d t s h;
  kept = texts_kept;
  adds = texts_adds;
  found = texts_found;
  unique = texts_unique;
  same_iff = λ i j. eq_iff i j;
}

-- A buffer that is written again: first it holds one text, then another.
abbrev first_text : Memory
first_text p = if p == 5 then some "update" else none

abbrev second_text : Memory
second_text p = if p == 5 then some "indication" else none

symbols_are_texts_example :
    (t0 t1 t2 t3 t4 : List String) × (i j : String) × (create_all texts
        ((second_text, 5) ∷ [])
        texts.empty
      ≡ ok t0)
    × (find_or_create_symbol texts first_text 5 t0 ≡ ok (t1, i))
    × (create_all texts [] t1 ≡ ok t2)
    × (find_or_create_symbol texts second_text 5 t2 ≡ ok (t3, j))
    × (create_all texts ((first_text, 5) ∷ []) t3 ≡ ok t4)
    × ((now : Memory)
        → (value texts now i t4 ≡ ok "update") × (value texts now j t4 ≡ ok "indication"))
    × (equal_symbols texts i j ≡ str_eq "update" "indication")
symbols_are_texts_example =
    Interning.symbols_are_texts texts texts-IsSymbolSet ((second_text, 5) ∷ []) []
      ((first_text, 5) ∷ []) first_text second_text 5 5 "update" "indication"
      (("indication", refl), tt) tt (("update", refl), tt) refl refl
