-- ===== src/Vehicles/Factory/Created.antt =====
-- The objects that src/objects/ObjectFactory.cpp creates, and what the first loop of resolveAndStart in
-- src/objects/TemporaryObject.cpp makes of them.
use cosidia.Prelude.{pos, ◌+◌, ◌<◌, true, false, ◌≡◌, refl, some, [], ◌∷◌, arith, String}
use cosidia.Prelude.Result.{ok}
use cosidia.Std.Set.{insert}
use cosidia.Utils.ReadOnly.{unset, set_element}
use cosidia.Core.Action.{Ref}
use cosidia.Objects.Object.{BaseObject, new_object, plain, vehicle, set_external_id, is_initialized}
use cosidia.Objects.Container.{ObjectContainer, get_unique}
use cosidia.Kernel.{System, update, update_self}
use cosidia.Vehicles.Factory.{vehicle_objects, create_object, get_id}
use cosidia.Vehicles.Temporary.{TemporaryObject, temporary_object}

-- The four objects of `vehicle_objects`, by their pointers.
abbrev pub t_radio : Ref → TemporaryObject
t_radio p = record (temporary_object (pos 0) p true) { temp_children = pos 1 ∷ [] }

abbrev pub t_channel : Ref → TemporaryObject
t_channel p = record (temporary_object (pos 1) p false) {
  temp_parents = pos 0 ∷ [];
  temp_children = pos 2 ∷ pos 3 ∷ [];
}

abbrev pub t_vehicle : Ref → TemporaryObject
t_vehicle p = record (temporary_object (pos 2) p false) { temp_parents = pos 1 ∷ [] }

abbrev pub t_router : Ref → TemporaryObject
t_router p = record (temporary_object (pos 3) p false) { temp_parents = pos 1 ∷ [] }

vehicle_objects-eq :
    (r c v rt : Ref)
    → vehicle_objects r c v rt ≡ t_radio r ∷ t_channel c ∷ t_vehicle v ∷ t_router rt ∷ []
unfolding vehicle_objects insert
vehicle_objects-eq r c v rt = refl

-- A vehicle with its external id.
abbrev pub named_vehicle : String → BaseObject
named_vehicle name = new_object (vehicle (record { element = some name })) "VehicleObject"

set_external_id-new :
    (name : String)
    → set_external_id name (new_object (vehicle unset) "VehicleObject") ≡ ok (named_vehicle name)
unfolding set_external_id is_initialized set_element
set_external_id-new name = refl

module _ {X : Type 0} (free radio : Ref) where
  -- Three new objects from `free` on, and the radio with its id.
  pub record IsCreated (name : String) (s s1 : System X) : Type 0 where
    pub router_is : s1.objects free ≡ new_object plain "Router"
    pub channel_is : s1.objects (free + 1) ≡ new_object plain "Microchannel"
    pub vehicle_is : s1.objects (free + 2) ≡ named_vehicle name
    pub radio_is : s1.objects radio ≡ s.objects radio
    pub core_is : s1.core ≡ s.core
    pub thread_is : s1.on_core_thread ≡ s.on_core_thread

  pub create_object-IsCreated :
      (name : String) (c : ObjectContainer) (s : System X)
      → get_unique "Radio" c ≡ ok radio
      → radio < free
      → (s1 : System X) × (create_object "vehicle" free c (some (record { id = some name })) s
          ≡ ok (
            t_radio radio ∷ t_channel (free + 1) ∷ t_vehicle (free + 2) ∷ t_router free ∷ [],
            s1,
          ))
        × IsCreated name s s1
  unfolding create_object get_id
  create_object-IsCreated name c s known below = (
    record s {
      objects =
          update
            (update
              (update (update s.objects free (new_object plain "Router")) (free + 1)
                (new_object plain "Microchannel"))
              (free + 2) (new_object (vehicle unset) "VehicleObject"))
            (free + 2) (named_vehicle name);
    },
    rw
        (
          update_self
              (update (update s.objects free (new_object plain "Router")) (free + 1)
                (new_object plain "Microchannel"))
              (free + 2) (new_object (vehicle unset) "VehicleObject"),
          set_external_id-new name,
          known,
        )
        (rw (vehicle_objects-eq radio (free + 1) (free + 2) free)),
    record {
      router_is = ground arith;
      channel_is = ground arith;
      vehicle_is = ground arith;
      radio_is = ground arith;
      core_is = refl;
      thread_is = refl;
    },
  )
