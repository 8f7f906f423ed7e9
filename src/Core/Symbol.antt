-- ===== src/Core/Symbol.antt =====
-- src/core/Symbol.cpp and the comparison of src/core/Symbol.hpp. A std::string_view is the address of
-- its text, and the memory says what text stands at an address now, `none` where none may be read.
-- The set of symbols, tbb::concurrent_unordered_set<SymbolData>, is a parameter. The hash, which
-- only the set calls, is left out.
pub mod Interning
use cosidia.Prelude.{◌≡◌, ◌↔◌, ◌⊎◌, Bool, true, Option, none, some, List, [], ◌∷◌, String}
use cosidia.Prelude.Result.{Result, ok, deref, ◌>>=◌}
use text.Mathlib.Text.{◌==◌ as str_eq}
use cosidia.Core.Action.{Ref}

abbrev pub Memory : Type 0
Memory = Ref → Option String

-- A text that is borrowed, or a text of its own.
pub data SymbolData : Type 0 where
  string_view : Ref → SymbolData
  string : String → SymbolData

unfoldable pub contents : Memory → SymbolData → Result String
contents m (string_view p) = deref (m p)
contents m (string s) = ok s

-- The copy constructor.
unfoldable pub copy : Memory → SymbolData → Result SymbolData
unfolding contents
copy m d = do s ← contents m d; ok (string s)

unfoldable pub equal_data : Memory → SymbolData → SymbolData → Result Bool
unfolding contents
equal_data m d e = do s ← contents m d; u ← contents m e; ok (str_eq s u)

-- What the code uses of the set `S` and its iterators `I`. `insert` may fail, since it calls the copy
-- constructor and the operator == of the elements.
pub record SymbolSet (S I : Type 0) : Type 0 where
  pub empty : S
  pub insert : Memory → SymbolData → S → Result (S × I)
  -- `*it`, `none` where the iterator does not lead to an element
  pub element : I → S → Option SymbolData
  pub same : I → I → Bool

-- What TBB documents: a new set is empty; an insertion returns where all elements can be compared with
-- the new one, which can be copied; it leaves iterators and their elements alone, adds nothing but a
-- copy of its argument, and returns the iterator of this copy or of an equal element; no two
-- elements are equal, so it returns the iterator of any element that is equal to its argument.
pub record IsSymbolSet {S I : Type 0} (set : SymbolSet S I) : Type 0 where
  pub nothing : (i : I) → set.element i set.empty ≡ none
  pub returns :
      (m : Memory) (d : SymbolData) (t : S) (s : String)
      → contents m d ≡ ok s
      → ((i : I) (e : SymbolData) → set.element i t ≡ some e → (u : String) × (contents m e ≡ ok u))
      → (t' : S) × (i : I) × (set.insert m d t ≡ ok (t', i))
  pub kept :
      (m : Memory) (d : SymbolData) (t t' : S) (i j : I) (e : SymbolData)
      → set.insert m d t ≡ ok (t', i)
      → set.element j t ≡ some e
      → set.element j t' ≡ some e
  pub adds :
      (m : Memory) (d : SymbolData) (t t' : S) (i j : I) (e : SymbolData)
      → set.insert m d t ≡ ok (t', i)
      → set.element j t' ≡ some e
      → (set.element j t ≡ some e) ⊎ (copy m d ≡ ok e)
  pub found :
      (m : Memory) (d : SymbolData) (t t' : S) (i : I)
      → set.insert m d t ≡ ok (t', i)
      → (e : SymbolData) × (set.element i t' ≡ some e)
        × ((equal_data m e d ≡ ok true) ⊎ (copy m d ≡ ok e))
  pub unique :
      (m : Memory) (d : SymbolData) (t t' : S) (i j : I) (e : SymbolData)
      → set.insert m d t ≡ ok (t', i)
      → set.element j t ≡ some e
      → equal_data m e d ≡ ok true
      → j ≡ i
  pub same_iff : (i j : I) → (set.same i j ≡ true) ↔ (i ≡ j)

module _ {S I : Type 0} (set : SymbolSet S I) where
  -- The constructors of Symbol, and the literal `"..."_sym`.
  unfoldable pub find_or_create_symbol : Memory → Ref → S → Result (S × I)
  find_or_create_symbol m sv t = set.insert m (string_view sv) t

  unfoldable pub value : Memory → I → S → Result String
  unfolding contents
  value m i t = do d ← deref (set.element i t); contents m d

  unfoldable pub equal_symbols : I → I → Bool
  equal_symbols i j = set.same i j

  -- One creation after the other, each from the memory as it is then.
  unfoldable pub create_all : List (Memory × Ref) → S → Result S
  unfolding find_or_create_symbol
  create_all [] t = ok t
  create_all ((m, sv) ∷ cs) t = do (t', i) ← find_or_create_symbol m sv t; create_all cs t'
