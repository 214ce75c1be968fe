-- ===== src/Peers.antt =====
-- src/services/database.ts, `rememberDatabasePeer` and `isHeldOpen`: what the pubsub handlers ask
-- of the database service. A peer is the text that it prints as; `none` is a peer that is null.
pub mod Reconnect
pub mod Laws
mod Tests
use orbitdb_relay.Prelude.{
  Text, codes, text_eq, starts_with, Bool, Option, none, some, [], ◌||◌, if◌then◌else◌, get_or,
}
use orbitdb_relay.Prelude.Map
use orbitdb_relay.Addresses.{orbitdb_prefix}
use orbitdb_relay.Service.{Service}

abbrev pub is_empty : Text → Bool
is_empty s = text_eq s []

unfoldable pub remember_database_peer : Text → Option Text → Service → Service
remember_database_peer db_address none service = service
remember_database_peer db_address (some peer_id) service =
    if starts_with db_address orbitdb_prefix
    then (if is_empty peer_id || text_eq peer_id (codes "[object Object]")
        then service
        else record service {
          known_database_peers =
              Map.set db_address
                (Map.set peer_id peer_id
                  (get_or (Map.get db_address service.known_database_peers) []))
                service.known_database_peers;
        })
    else service

unfoldable pub is_held_open : Service → Text → Bool
is_held_open service db_address = Map.has db_address service.pinned_open_databases
