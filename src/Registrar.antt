-- ===== src/Registrar.antt =====
-- src/services/orbitdb-replication-service.ts, `installOnDemandOrbitdbHeadsSupport`: the protocols
-- that the relay advertises and the handlers that it finds for them. libp2p's own registrar is a
-- parameter: its protocols, and its handler for a protocol, where `none` stands for its exception.
pub mod Laws
mod Tests
use orbitdb_relay.Prelude.{
  Text, Bool, true, false, Option, none, some, List, [], ◌∷◌, ◌++◌, if◌then◌else◌,
}
use orbitdb_relay.Prelude.TextSet
use orbitdb_relay.Prelude.TextSet.{TextSet}
use orbitdb_relay.Prelude.Sort.{sort}
use orbitdb_relay.Addresses.{get_known_heads_protocols, is_known_heads_protocol}

-- `new Set(xs)`, on top of a set.
unfoldable pub set_of : List Text → TextSet → TextSet
set_of [] set = set
set_of (x ∷ xs) set = set_of xs (TextSet.add x set)

unfoldable pub get_protocols : List Text → TextSet → List Text
unfolding set_of
get_protocols original known = sort (set_of (original ++ get_known_heads_protocols known) [])

pub data Found (Handler : Type 0) : Type 0 where
  registered : Handler → Found Handler
  on_demand : Found Handler
  throws : Found Handler

module _ {Handler : Type 0} where
  unfoldable pub get_handler : Option Handler → TextSet → Text → Found Handler
  get_handler (some handler) known protocol = registered handler
  get_handler none known protocol =
      if is_known_heads_protocol known protocol then on_demand else throws
