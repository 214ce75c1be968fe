-- ===== src/Peers/Laws.antt =====
-- Theorems about the reconnection to the peers of a database in src/services/database.ts.
use orbitdb_relay.Prelude.{
  Text, text_eq_iff, Bool, some, [], ◌∷◌, ◌&&◌, ◌||◌, not, ◌≡◌, refl, arith, if◌then◌else◌, get_or,
  Option-cases, inl, inr,
}
use orbitdb_relay.Prelude.Map
use orbitdb_relay.Prelude.Map.{Map}
use orbitdb_relay.Prelude.TextSet
use orbitdb_relay.Service.{Service}
use orbitdb_relay.Peers.Reconnect.{
  Libp2p, can_dial_back, is_connected, is_own, try_peer, is_forgotten, is_hung_up, reconnect_all,
  hung_up, reconnect_known_database_peers,
}

abbrev pub peers_of : Text → Service → Map Text
peers_of a service = get_or (Map.get a service.known_database_peers) []

-- Whether the relay still has a use for a peer.
abbrev pub is_reachable : Libp2p → Text → Bool
is_reachable l p = is_own l.peer_id p || (if can_dial_back l p then l.dial p else is_connected l p)

forgotten_lem : (l : Libp2p) (p : Text) → is_forgotten (try_peer l p) ≡ not (is_reachable l p)
unfolding try_peer
forgotten_lem l p = ground arith

hung_up_lem :
    (l : Libp2p) (p : Text)
    → is_hung_up (try_peer l p) ≡ (not (is_own l.peer_id p) && can_dial_back l p)
unfolding try_peer
hung_up_lem l p = ground arith

has-reconnect_all :
    (l : Libp2p) (p : Text) (tried peers : Map Text)
    → Map.has p (reconnect_all l tried peers)
      ≡ (Map.has p peers && not (TextSet.has p (Map.keys tried) && not (is_reachable l p)))
unfolding reconnect_all TextSet.has
has-reconnect_all l p [] peers = ground arith
has-reconnect_all l p ((q, r) ∷ tried) peers = ground (
  arith,
  has-reconnect_all l p tried (if is_forgotten (try_peer l q) then Map.delete q peers else peers),
  forgotten_lem l q,
  Map.get-delete p q peers,
  text_eq_iff q p,
)

has-hung_up :
    (l : Libp2p) (p : Text) (tried : Map Text)
    → TextSet.has p (hung_up l tried)
      ≡ (Map.has p tried && (not (is_own l.peer_id p) && can_dial_back l p))
unfolding hung_up TextSet.has Map.get
has-hung_up l p [] = refl
has-hung_up l p ((q, r) ∷ tried) =
    ground (arith, has-hung_up l p tried, hung_up_lem l q, text_eq_iff q p)

-- The relay forgets a peer of the database exactly when it has gone: when it can neither be dialled
-- back nor is connected, or can be dialled back but the dial fails. It does not forget itself.
pub has-reconnect :
    (l : Libp2p) (a p : Text) (service : Service)
    → Map.has p (peers_of a (reconnect_known_database_peers (some l) a service).1)
      ≡ (Map.has p (peers_of a service) && is_reachable l p)
unfolding reconnect_known_database_peers Map.get
has-reconnect l a p service = elim (Option-cases (Map.get a service.known_database_peers)) [
  | inl gone ↦ rw (gone, reconnect_known_database_peers) (rw gone refl)
  | inr (peers, found) ↦
      rw (found, reconnect_known_database_peers)
        (rw (Map.get-set_self a (reconnect_all l peers peers) service.known_database_peers)
          (ground (arith, has-reconnect_all l p peers peers, Map.has-keys p peers)))
]

-- The relay hangs up on exactly those peers of the database, other than itself, that it can dial
-- back.
hung_up-reconnect :
    (l : Libp2p) (a p : Text) (service : Service)
    → TextSet.has p (reconnect_known_database_peers (some l) a service).0
      ≡ (Map.has p (peers_of a service) && (not (is_own l.peer_id p) && can_dial_back l p))
unfolding reconnect_known_database_peers Map.get TextSet.has
hung_up-reconnect l a p service = elim (Option-cases (Map.get a service.known_database_peers)) [
  | inl gone ↦ rw (gone, reconnect_known_database_peers) refl
  | inr (peers, found) ↦ rw (found, reconnect_known_database_peers) (has-hung_up l p peers)
]
