-- ===== src/Objects/Cache.antt =====
-- src/objects/CacheQuery.hpp, src/objects/CacheQuery.cpp, src/objects/ObjectCache.hpp and
-- src/objects/ObjectCache.cpp. A query is a CacheQueryExclude, the one subclass of CacheQuery, and
-- is reached through its address. Whether the weak pointer to the last container has expired is an
-- argument. `objects` is the heap of objects.
pub mod Fresh
use cosidia.Prelude.{
  ℤ, ℕ, eqb_ℤ, ◌==◌, Bool, true, false, not, ◌&&◌, ◌||◌, Option, none, some, List, [], ◌∷◌, ◌++◌,
  String, if◌then◌else◌,
}
use text.Mathlib.Text.{◌==◌ as str_eq}
use cosidia.Core.Action.{Ref, ObjectId}
use cosidia.Objects.Object.{BaseObject}
use cosidia.Objects.Container.{ObjectContainer, ContainerPtr, Objects}

-- CacheQueryExclude
pub record CacheQuery : Type 0 where
  pub exclude_id : ObjectId

unfoldable pub apply_query : CacheQuery → BaseObject → Bool
apply_query q element = if eqb_ℤ element.object_id q.exclude_id then false else true

-- A type string, and the address of a query or the null pointer.
abbrev pub Request : Type 0
Request = String × Option ℕ

abbrev pub same_address : Option ℕ → Option ℕ → Bool
same_address none none = true
same_address (some a) (some b) = a == b
same_address none (some b) = false
same_address (some a) none = false

abbrev pub same_request : Request → Request → Bool
same_request r q = str_eq r.0 q.0 && same_address r.1 q.1

abbrev pub Requests : Type 0
Requests = List (Request × List ObjectId)

unfoldable pub find_request : Request → Requests → Option (List ObjectId)
find_request k [] = none
find_request k ((j, l) ∷ m) = if same_request j k then some l else find_request k m

-- `mCachedRequests[k].push_back(id)`
unfoldable pub push_result : Request → ObjectId → Requests → Requests
push_result k id [] = (k, id ∷ []) ∷ []
push_result k id ((j, l) ∷ m) =
    if same_request j k then (j, l ++ id ∷ []) ∷ m else (j, l) ∷ push_result k id m

pub record ObjectCache : Type 0 where
  pub last_container : Option ContainerPtr
  pub cached_requests : Requests

abbrev pub new_cache : ObjectCache
new_cache = record { last_container = none; cached_requests = [] }

is_current : Option ContainerPtr → ContainerPtr → Bool
is_current none c = false
is_current (some l) c = l.address == c.address

-- The requests that are kept for a search of the container.
unfoldable pub kept_requests : (expired : Bool) → ContainerPtr → ObjectCache → Requests
unfolding is_current
kept_requests expired c cache =
    if expired || not (is_current cache.last_container c) then [] else cache.cached_requests

module _ (objects : Objects) (query_at : ℕ → CacheQuery) where
  -- The conditions of the loop in performSearch.
  unfoldable pub matches : Request → BaseObject → Bool
  unfolding apply_query
  matches (type, query) o =
      (str_eq o.object_name type || str_eq type "")
      && elim query [ none ↦ true | some q ↦ apply_query (query_at q) o ]

  collect : Request → List (ObjectId × Ref) → Requests → Requests
  collect k [] m = m
  collect k ((id, r) ∷ rest) m =
      collect k rest (if matches k (objects r) then push_result k (objects r).object_id m else m)

  -- `return mCachedRequests[k]`, which adds an empty list where nothing was found.
  read_result : Request → Requests → Requests × List ObjectId
  read_result k m = elim (find_request k m) [ none ↦ ((k, []) ∷ m, []) | some l ↦ (m, l) ]

  unfoldable pub perform_search : Request → ObjectContainer → Requests → Requests × List ObjectId
  unfolding collect read_result
  perform_search k c m = elim (find_request k m) [
    | some hit ↦ (m, hit)
    | none ↦ read_result k (collect k c.active_objects m)
  ]

  -- A weak pointer that was never set counts as expired.
  unfoldable pub get_objects_by_type :
      (expired : Bool) → ContainerPtr → Request → ObjectCache → ObjectCache × List ObjectId
  unfolding perform_search kept_requests
  get_objects_by_type expired c k cache =
      let (requests', found) = perform_search k c.container (kept_requests expired c cache) in
      (record { last_container = some c; cached_requests = requests' }, found)
