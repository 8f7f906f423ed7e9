-- ===== src/Networking/Dcc.antt =====
-- src/networking/DccPassThrough.hpp. The addresses, the profiles of the congestion control and the
-- categories of the access are Vanetza's types.
use cosidia.Prelude.{ℕ}

-- vanetza::dcc::DataRequest
pub record DccRequest (Address Profile : Type 0) : Type 0 where
  pub source : Address
  pub destination : Address
  pub ether_type : ℕ
  pub dcc_profile : Profile

-- vanetza::access::DataRequest
pub record AccessRequest (Address Category : Type 0) : Type 0 where
  pub source_addr : Address
  pub destination_addr : Address
  pub ether_type : ℕ
  pub access_category : Category

-- The request that is passed on to the access interface with the packet.
unfoldable pub pass_through :
    {Address Profile Category : Type 0}
    → (map_profile_onto_ac : Profile → Category) → DccRequest Address Profile
    → AccessRequest Address Category
pass_through map_profile_onto_ac r = record {
  source_addr = r.source;
  destination_addr = r.destination;
  ether_type = r.ether_type;
  access_category = map_profile_onto_ac r.dcc_profile;
}
