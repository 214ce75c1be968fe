-- ===== src/Peers/Tests.antt =====
-- The reconnection of src/services/database.ts with two peers, of which one can be dialled back.
use orbitdb_relay.Prelude.{
  Text, codes, text_eq, true, false, Option, none, some, List, [], starts_with, includes, ◌∷◌, ◌&&◌,
  ◌≡◌, if◌then◌else◌, refl,
}
use orbitdb_relay.Prelude.Map
use orbitdb_relay.Service.{Service, new_service}
use orbitdb_relay.Peers.Reconnect.{
  Libp2p, is_connected, can_dial_back, reconnect_known_database_peers,
}
use orbitdb_relay.Peers.Laws.{peers_of, is_reachable, has-reconnect}

abbrev addresses : Text → Option (List Text)
addresses peer =
    if text_eq peer (codes "alice") then some (codes "/ip4/1.2.3.4/tcp/1" ∷ []) else none

abbrev node : Libp2p
node = record {
  peer_id = some (codes "relay");
  peer_addresses = some addresses;
  is_dialable = none;
  connections = some (λ peer. []);
  dial = λ peer. true;
}

abbrev service : Service
service = record new_service {
  known_database_peers =
      (codes "/orbitdb/a", (codes "alice", codes "alice") ∷ (codes "bob", codes "bob") ∷ []) ∷ [];
}

has-reconnect_example :
    Map.has (codes "bob") (
      peers_of
        (codes "/orbitdb/a")
        (reconnect_known_database_peers (some node) (codes "/orbitdb/a") service).1)
    ≡ (Map.has (codes "bob") (peers_of (codes "/orbitdb/a") service)
        && is_reachable node (codes "bob"))
has-reconnect_example = has-reconnect node (codes "/orbitdb/a") (codes "bob") service

bob_forgotten :
    Map.has (codes "bob") (
      peers_of
        (codes "/orbitdb/a")
        (reconnect_known_database_peers (some node) (codes "/orbitdb/a") service).1)
    ≡ false
unfolding reconnect_known_database_peers Map.get Map.set Map.delete text_eq can_dial_back
    is_connected includes starts_with
bob_forgotten = refl
