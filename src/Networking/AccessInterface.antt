-- ===== src/Networking/AccessInterface.antt =====
-- src/networking/AccessInterface.cpp. The interface takes one transmission at a time from the
-- router; the receivers are the objects of the cache's type, each with the vehicle beside it.
use cosidia.Prelude.{Bool, true, false, not, Option, none, some, List, [], ◌∷◌, String}
use cosidia.Prelude.Result.{Result, ok, ◌>>=◌, ◌>>◌, enforce, deref}
use cosidia.Core.Action.{ObjectId}
use cosidia.Objects.Container.{ContainerPtr, Objects}
use cosidia.Objects.Cache.{CacheQuery, ObjectCache, new_cache, get_objects_by_type}
use cosidia.Objects.Relations.{get_sibling_of_id}
use cosidia.Radio.Transmission.{Transmission, new_transmission, add_possible_receiver}

-- The query, if there is one, is at its own address; `none` is the null pointer.
pub record AccessInterface (Context Payload : Type 0) : Type 0 where
  pub has_request : Bool
  pub current_transmission : Option (Transmission Context Payload)
  pub object_cache : Option ObjectCache
  pub cache_query : Option CacheQuery
  pub request_object_type : String

module _ {Context Payload : Type 0} where
  abbrev pub new_interface : AccessInterface Context Payload
  new_interface = record {
    has_request = false;
    current_transmission = none;
    object_cache = none;
    cache_query = none;
    request_object_type = "none";
  }

  -- `payload` is the request with its packet.
  unfoldable pub request :
      Payload → AccessInterface Context Payload → Result (AccessInterface Context Payload)
  request payload i = do
    enforce (not i.has_request) "AccessInterface: double transmission"
    ok (record i { current_transmission = some (new_transmission payload); has_request = true })

  add_receivers :
      Objects
      → ContainerPtr
      → List ObjectId
      → Transmission Context Payload
      → Result (Transmission Context Payload)
  add_receivers objects c [] t = ok t
  add_receivers objects c (receiver ∷ receivers) t = do
    mob ← get_sibling_of_id objects c.container receiver "VehicleObject"
    t' ← add_possible_receiver receiver (some mob) t
    add_receivers objects c receivers t'

  -- `expired` is whether the cache's weak pointer has expired. The transmission is moved out.
  unfoldable pub get_transmission :
      Objects
      → (expired : Bool) → ContainerPtr
      → AccessInterface Context Payload
      → Result (AccessInterface Context Payload × Transmission Context Payload)
  unfolding add_receivers
  get_transmission objects expired c i = do
    enforce i.has_request "AccessInterface: transmission request without pending transmission"
    query ←
        enforce (elim i.cache_query [ none ↦ false | some _ ↦ true ])
          "AccessInterface: ObjectCache was not initialized"
        >> deref i.cache_query
    cache ← deref i.object_cache
    let (cache', receivers) =
        get_objects_by_type objects (λ _. query) expired c (i.request_object_type, some 0) cache
    t ← deref i.current_transmission
    t' ← add_receivers objects c receivers t
    ok (
      record i { has_request = false; current_transmission = none; object_cache = some cache' },
      t',
    )

  unfoldable pub initialize_cache :
      String → ObjectId → AccessInterface Context Payload → AccessInterface Context Payload
  initialize_cache type_identifier exclude_id i = record i {
    request_object_type = type_identifier;
    object_cache = some new_cache;
    cache_query = some (record { exclude_id = exclude_id });
  }

  unfoldable pub drop_transmission :
      AccessInterface Context Payload → AccessInterface Context Payload
  drop_transmission i = record i { has_request = false }
