-- ===== src/Peers/Reconnect.antt =====
-- src/services/database.ts, `reconnectKnownDatabasePeers`, `canDialBack` and `isConnected`. The
-- libp2p node is a parameter, with `none` for a method that it lacks or an answer that throws. The
-- peers are tried at the same time; each try changes the entry of its own peer only. What other
-- calls do to the directory while the dials run is left out.
use orbitdb_relay.Prelude.{
  Text, codes, text_eq, includes, Bool, true, false, Option, none, some, List, [], ◌∷◌, ◌++◌, ◌&&◌,
  not, any, if◌then◌else◌,
}
use orbitdb_relay.Prelude.Map
use orbitdb_relay.Prelude.Map.{Map}
use orbitdb_relay.Peers.{is_empty}
use orbitdb_relay.Service.{Service}

pub record Libp2p : Type 0 where
  pub peer_id : Option Text
  pub peer_addresses : Option (Text → Option (List Text))
  pub is_dialable : Option (Text → Bool)
  pub connections : Option (Text → List Text)
  pub dial : Text → Bool

abbrev pub is_circuit_through : Option Text → Text → Bool
is_circuit_through none address = false
is_circuit_through (some self) address =
    not (is_empty self) && includes address (codes "/p2p/" ++ self ++ codes "/p2p-circuit")

abbrev pub is_dialable_address : Option (Text → Bool) → Text → Bool
is_dialable_address none address = true
is_dialable_address (some is_dialable) address = is_dialable address

unfoldable pub any_dialable : Libp2p → List Text → Bool
any_dialable libp2p [] = false
any_dialable libp2p (address ∷ addresses) =
    let rest = any_dialable libp2p addresses in
    if is_circuit_through libp2p.peer_id address
    then rest
    else if is_dialable_address libp2p.is_dialable address
    then true
    else rest

abbrev pub dialable_back : Libp2p → Option (List Text) → Bool
dialable_back libp2p none = false
dialable_back libp2p (some addresses) = any_dialable libp2p addresses

unfoldable pub can_dial_back : Libp2p → Text → Bool
unfolding any_dialable
can_dial_back libp2p peer = elim libp2p.peer_addresses [
  | none ↦ true
  | some get ↦ dialable_back libp2p (get peer)
]

-- The connections are told apart by their status.
unfoldable pub is_connected : Libp2p → Text → Bool
is_connected libp2p peer = elim libp2p.connections [
  | none ↦ true
  | some get_connections ↦ any (λ status. text_eq status (codes "open")) (get_connections peer)
]

-- What becomes of one peer.
pub data Try : Type 0 where
  is_self keeps forgets reconnects fails_to_dial : Try

abbrev pub is_own : Option Text → Text → Bool
is_own none peer = false
is_own (some self) peer = text_eq peer self

unfoldable pub try_peer : Libp2p → Text → Try
try_peer libp2p peer =
    if is_own libp2p.peer_id peer
    then is_self
    else if not (can_dial_back libp2p peer)
    then (if is_connected libp2p peer then keeps else forgets)
    else if libp2p.dial peer
    then reconnects
    else fails_to_dial

abbrev pub is_forgotten : Try → Bool
is_forgotten forgets = true
is_forgotten fails_to_dial = true
is_forgotten _ = false

-- Whether the connection to the peer was hung up.
abbrev pub is_hung_up : Try → Bool
is_hung_up reconnects = true
is_hung_up fails_to_dial = true
is_hung_up _ = false

unfoldable pub reconnect_all : Libp2p → Map Text → Map Text → Map Text
unfolding try_peer
reconnect_all libp2p [] peers = peers
reconnect_all libp2p ((peer_id, peer) ∷ tried) peers =
    reconnect_all libp2p tried
      (if is_forgotten (try_peer libp2p peer_id) then Map.delete peer_id peers else peers)

unfoldable pub hung_up : Libp2p → Map Text → List Text
unfolding try_peer
hung_up libp2p [] = []
hung_up libp2p ((peer_id, peer) ∷ tried) =
    let rest = hung_up libp2p tried in
    if is_hung_up (try_peer libp2p peer_id) then peer_id ∷ rest else rest

-- The peers that it hangs up on, and the state afterwards.
unfoldable pub reconnect_known_database_peers : Option Libp2p → Text → Service → List Text × Service
unfolding reconnect_all hung_up
reconnect_known_database_peers none db_address service = ([], service)
reconnect_known_database_peers (some libp2p) db_address service =
    elim (Map.get db_address service.known_database_peers) [
      | none ↦ ([], service)
      | some peers ↦ (
        hung_up libp2p peers,
        record service {
          known_database_peers =
              Map.set db_address (reconnect_all libp2p peers peers) service.known_database_peers;
        },
      )
    ]
