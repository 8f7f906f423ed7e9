-- ===== src/Objects/Cache/Fresh.antt =====
-- The answers of the cache in src/objects/ObjectCache.cpp.
use cosidia.Prelude.{
  ℕ, Bool, true, false, ◌≡◌, ◌↔◌, refl, sym, ◌∙◌, Option, none, some, List, [], ◌∷◌, ◌++◌,
  if◌then◌else◌, arith, Bool-cases, Option-cases, inl, inr,
}
use mathlib.Core.Option.{get_or}
use mathlib.Core.List.{append-nil, append_assoc}
use text.Mathlib.TextEquality.{eq_iff}
use cosidia.Core.Action.{Ref, ObjectId}
use cosidia.Objects.Container.{ObjectContainer, ContainerPtr, Objects}
use cosidia.Objects.Cache.{
  CacheQuery, Request, Requests, same_address, same_request, find_request, push_result, ObjectCache,
  matches, collect, kept_requests, new_cache, read_result, perform_search, get_objects_by_type,
}

same_address_iff : (a b : Option ℕ) → (same_address a b ≡ true) ↔ (a ≡ b)
same_address_iff none none = ground arith
same_address_iff none (some b) = ground arith
same_address_iff (some a) none = ground arith
same_address_iff (some a) (some b) = ground arith

same_request_iff : (j k : Request) → (same_request j k ≡ true) ↔ (j ≡ k)
same_request_iff (s, a) (t, b) = ground (arith, eq_iff s t, same_address_iff a b)

-- `find_request` after a push, at the pushed key and at any other.
find_request-push_result :
    (k i : Request) (id : ObjectId) (m : Requests)
    → find_request i (push_result k id m) ≡ (
        if same_request k i
        then some (get_or (find_request k m) [] ++ id ∷ [])
        else find_request i m)
unfolding find_request push_result
find_request-push_result k i id [] = ground arith
find_request-push_result k i id ((j, l) ∷ m) = ground (
  arith,
  find_request-push_result k i id m,
  same_request_iff j k,
  same_request_iff k i,
  same_request_iff j i,
)

-- A container that the weak pointer still holds is one object: at its address is the same
-- container.
abbrev pub IsUnchanged : Bool → Option ContainerPtr → ContainerPtr → Type 0
IsUnchanged expired last c =
    (p : ContainerPtr)
    → expired ≡ false
    → last ≡ some p
    → p.address ≡ c.address
    → p.container ≡ c.container

-- One call with what it is made with: whether the weak pointer has expired, the container and
-- the request.
abbrev pub Call : Type 0
Call = Bool × ContainerPtr × Request

-- Along the calls a container that is still held is unchanged.
abbrev pub IsHonest : Option ContainerPtr → List Call → Type 0
IsHonest last [] = Unit
IsHonest last ((expired, c, k) ∷ calls) = IsUnchanged expired last c × IsHonest (some c) calls

module _ (objects : Objects) (query_at : ℕ → CacheQuery) where
  -- The ids that a search finds with no cache: those of the matching objects, in the order of the
  -- container.
  pub search_all : Request → List (ObjectId × Ref) → List ObjectId
  search_all k [] = []
  search_all k ((id, r) ∷ rest) =
      if matches objects query_at k (objects r)
      then (objects r).object_id ∷ search_all k rest
      else search_all k rest

  collect_self :
      (k : Request) (l : List (ObjectId × Ref)) (m : Requests)
      → get_or (find_request k (collect objects query_at k l m)) []
        ≡ get_or (find_request k m) [] ++ search_all k l
  unfolding collect search_all
  collect_self k [] m = sym (append-nil _)
  collect_self k ((id, r) ∷ rest) m = elim (Bool-cases (matches objects query_at k (objects r))) [
    | inl hit ↦
        let m' = push_result k (objects r).object_id m in
        rw hit (
          collect_self k rest m'
          ∙ ground (
            arith,
            find_request-push_result k k (objects r).object_id m,
            same_request_iff k k,
            append_assoc (get_or (find_request k m) []) ((objects r).object_id ∷ [])
                (search_all k rest),
          ))
    | inr miss ↦ rw miss (collect_self k rest m)
  ]

  collect_other :
      (k i : Request) (l : List (ObjectId × Ref)) (m : Requests)
      → same_request k i ≡ false
      → find_request i (collect objects query_at k l m) ≡ find_request i m
  unfolding collect
  collect_other k i [] m ne = refl
  collect_other k i ((id, r) ∷ rest) m ne = ground (
    arith,
    collect_other k i rest m,
    collect_other k i rest (push_result k (objects r).object_id m),
    find_request-push_result k i (objects r).object_id m,
  )

  read_result-found :
      (k : Request) (m : Requests)
      → (read_result objects query_at k m).1 ≡ get_or (find_request k m) []
  unfolding read_result
  read_result-found k m = ground arith

  read_result-find :
      (k i : Request) (m : Requests)
      → find_request i (read_result objects query_at k m).0
        ≡ (if same_request k i then some (get_or (find_request k m) []) else find_request i m)
  unfolding read_result find_request
  read_result-find k i m = ground (arith, same_request_iff k i)

  -- Every cached answer is what a search of the container finds.
  abbrev pub Coherent : ObjectContainer → Requests → Type 0
  Coherent c m =
      (i : Request) (l : List ObjectId)
      → find_request i m ≡ some l
      → l ≡ search_all i c.active_objects

  perform_search-answer :
      (k : Request) (c : ObjectContainer) (m : Requests)
      → Coherent c m
      → (perform_search objects query_at k c m).1 ≡ search_all k c.active_objects
  unfolding perform_search
  perform_search-answer k c m h = ground (
    arith,
    read_result-found k (collect objects query_at k c.active_objects m),
    collect_self k c.active_objects m,
    h k (get_or (find_request k m) []),
  )

  perform_search-Coherent :
      (k : Request) (c : ObjectContainer) (m : Requests)
      → Coherent c m
      → Coherent c (perform_search objects query_at k c m).0
  unfolding perform_search
  perform_search-Coherent k c m h i l = ground (
    arith,
    read_result-find k i (collect objects query_at k c.active_objects m),
    collect_self k c.active_objects m,
    collect_other k i c.active_objects m,
    same_request_iff k i,
    h i l,
  )

  abbrev IsFresh : ObjectCache → Type 0
  IsFresh cache =
      (p : ContainerPtr)
      → cache.last_container ≡ some p
      → Coherent p.container cache.cached_requests

  kept_requests-Coherent :
      (expired : Bool) (c : ContainerPtr) (cache : ObjectCache)
      → IsFresh cache
      → IsUnchanged expired cache.last_container c
      → Coherent c.container (kept_requests expired c cache)
  unfolding kept_requests find_request
  kept_requests-Coherent true c cache h u i l found = ground arith
  kept_requests-Coherent false c cache h u i l found = elim (Option-cases cache.last_container) [
    | inl e ↦ ground (arith, e)
    | inr (p, e) ↦ ground (arith, e, h p e i l, u p refl e)
  ]

  abbrev pub answers : ObjectCache → List Call → List (List ObjectId)
  answers cache [] = []
  answers cache ((expired, c, k) ∷ calls) =
      (get_objects_by_type objects query_at expired c k cache).1
      ∷ answers (get_objects_by_type objects query_at expired c k cache).0 calls

  abbrev pub searches : List Call → List (List ObjectId)
  searches [] = []
  searches ((expired, c, k) ∷ calls) = search_all k c.container.active_objects ∷ searches calls

  answers-from :
      (cache : ObjectCache) (calls : List Call)
      → IsFresh cache
      → IsHonest cache.last_container calls
      → answers cache calls ≡ searches calls
  unfolding get_objects_by_type
  answers-from cache [] h u = refl
  answers-from cache ((expired, c, k) ∷ calls) h (u, us) =
      let ok = kept_requests-Coherent expired c cache h u in
      let (cache', found) = get_objects_by_type objects query_at expired c k cache in
      let again : IsFresh cache' = λ p e i l f.
        ground
          (arith, perform_search-Coherent k c.container (kept_requests expired c cache) ok i l f) in
      cc (
        perform_search-answer k c.container (kept_requests expired c cache) ok,
        answers-from cache' calls again us,
      )

  -- Whatever the calls of getObjectsByType on a new cache, if the container at an address that the
  -- weak pointer still holds has not changed between two calls, each call returns the ids of
  -- the objects that match its request, in the order of the container that it is given.
  pub cached_answers :
      (calls : List Call) → IsHonest none calls → answers new_cache calls ≡ searches calls
  cached_answers calls u = answers-from new_cache calls (λ p e. ground arith) u
