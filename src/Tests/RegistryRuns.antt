-- ===== src/Tests/RegistryRuns.antt =====
-- Runs of src/core/ActionList.cpp and src/objects/ObjectList.cpp.
use cosidia.Prelude.{pos, ℕ, ◌≡◌, arith, List, [], ◌∷◌, String, ◌==◌, if◌then◌else◌}
use cosidia.Prelude.Result.{ok}
use cosidia.Prelude.Both.{Both}
use cosidia.Core.Clock.{TimePoint}
use cosidia.Core.ActionList.{HandlerMap}
use cosidia.Core.ActionList.Fifo.{insert_all, due}
use cosidia.Core.ActionList.Drain
use cosidia.Core.ActionList.Drain.{drain, Ascends}
use cosidia.Objects.Container.{Objects, new_list}
use cosidia.Objects.Container.Registry.{
  add, unique, remove, SameAnswers, executed_all, specified_all, new_registry,
}
use cosidia.Objects.Container.Refines
use mathlib.Core.Bool.{Bool-discrete}
use cosidia.Prelude.{refl, Bool, true, false}
use cosidia.Prelude.Result.{err, runtime_error}
use cosidia.Utils.AnyMap
use cosidia.Utils.AnyMap.{Any, get}
use cosidia.Utils.AnyMap.Typed
use cosidia.Tests.World.{lamp}

-- Handlers that are their names and times.
abbrev Named : Type 0
Named = String × TimePoint

abbrev time_of : Named → TimePoint
time_of h = h.1

abbrev mixed : List Named
mixed = ("d", pos 5) ∷ ("e", pos 4) ∷ ("f", pos 5) ∷ []

drained_in_order_example :
    (m : HandlerMap Named) × (out : List Named) × (insert_all (pos 3) time_of mixed [] ≡ ok m)
    × (drain time_of 4 m ≡ ok out)
    × Ascends time_of out
    × ((t : TimePoint) → due (pos 3) time_of t out ≡ due (pos 3) time_of t mixed)
drained_in_order_example =
    Drain.drained_in_order time_of (pos 3) mixed 4 (omega arith, (omega arith, (omega arith, tt)))
      (omega arith)

-- Every object but lamp 8 has the id 2.
abbrev lamps : Objects
lamps r = if r == 8 then record lamp { object_id = pos 3 } else lamp

list_is_registry_example :
    Both SameAnswers
      (executed_all lamps (add 7 ∷ unique 8 ∷ remove (pos 2) ∷ add 7 ∷ []) new_list)
      (specified_all lamps (add 7 ∷ unique 8 ∷ remove (pos 2) ∷ add 7 ∷ []) new_registry)
list_is_registry_example =
    Refines.list_is_registry lamps (add 7 ∷ unique 8 ∷ remove (pos 2) ∷ add 7 ∷ [])

-- Texts and numbers in a map of any.
abbrev El : Bool → Type 0
El true = String
El false = ℕ

abbrev stored : List (String × Any El Bool-discrete)
stored = ("id", (true, "car")) ∷ []

get-add_example :
    (get El Bool-discrete false "size" (("size", (false, 4)) ∷ stored) ≡ ok 4)
    × (get El Bool-discrete true "size" (("size", (false, 4)) ∷ stored)
        ≡ err (runtime_error "Wrong type in AnyMap"))
    × (get El Bool-discrete true "id" (("size", (false, 4)) ∷ stored)
        ≡ get El Bool-discrete true "id" stored)
unfolding AnyMap.add
get-add_example =
    Typed.get-add El Bool-discrete false true true "size" "id" 4 stored
      (("size", (false, 4)) ∷ stored) refl (λ e. cc) (λ e. cc)
