-- ===== src/Announce/Tests.antt =====
-- The announced addresses of src/config/announce-addresses.ts on a deployed relay.
use orbitdb_relay.Prelude.{
  Text, codes, text_eq, starts_with, includes, cut_at, false, Option, none, some, List, [], ◌∷◌,
  ◌&&◌, ◌||◌, not, any, All, ◌≡◌, refl, if◌then◌else◌,
}
use orbitdb_relay.Prelude.TextSet
use orbitdb_relay.Exposure.{trim_start, trim_end}
use orbitdb_relay.Announce.{
  is_public_address, enrich_browser_transport_certhash, is_deployed_mode, filter_announce_addresses,
}
use orbitdb_relay.Announce.Graft.{is_browser_address, IsHashed}
use orbitdb_relay.Announce.Laws.{IsComplete, filter_announce-IsComplete, has-filter_announce}

abbrev env : Text → Option Text
env name = if text_eq name (codes "PUBLIC_IPV4") then some (codes "5.6.7.8") else none

-- A listener address with its hash, the public address without it, and one for other nodes.
abbrev addrs : List Text
addrs =
    codes "/ip4/10.0.0.2/udp/9093/webrtc-direct/certhash/uEi/p2p/Qm"
    ∷ codes "/ip4/5.6.7.8/udp/41000/webrtc-direct"
    ∷ codes "/ip4/5.6.7.8/tcp/9091"
    ∷ []

addrs-IsHashed : All IsHashed addrs
unfolding includes starts_with
addrs-IsHashed = (refl, (refl, (refl, tt)))

filter_announce-IsComplete_example : All IsComplete (filter_announce_addresses env addrs)
filter_announce-IsComplete_example = filter_announce-IsComplete env addrs addrs-IsHashed

tcp_is_plain : is_browser_address (codes "/ip4/5.6.7.8/tcp/9091") ≡ false
unfolding includes starts_with
tcp_is_plain = refl

has-filter_announce_example :
    TextSet.has (codes "/ip4/5.6.7.8/tcp/9091") (filter_announce_addresses env addrs) ≡ (
      TextSet.has (codes "/ip4/5.6.7.8/tcp/9091") addrs
      && (not (is_deployed_mode env)
          || is_public_address (codes "/ip4/5.6.7.8/tcp/9091")
          || not (any is_public_address (enrich_browser_transport_certhash addrs))))
has-filter_announce_example =
    has-filter_announce env addrs (codes "/ip4/5.6.7.8/tcp/9091") addrs-IsHashed tcp_is_plain

grafted_hash : filter_announce_addresses env addrs ≡ (
    codes "/ip4/5.6.7.8/udp/41000/webrtc-direct/certhash/uEi" ∷ codes "/ip4/5.6.7.8/tcp/9091" ∷ [])
unfolding filter_announce_addresses is_public_address includes starts_with cut_at text_eq trim_start
    trim_end
grafted_hash = refl
