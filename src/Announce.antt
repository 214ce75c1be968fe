-- ===== src/Announce.antt =====
-- src/config/announce-addresses.ts: which addresses the relay announces. The variables of the
-- process are a function; the parser of multiaddrs is an argument, `none` where it throws.
pub mod Graft
pub mod Laws
mod Tests
use orbitdb_relay.Prelude.{
  ℕ, ◌+◌, ◌-◌, ◌*◌, Text, codes, starts_with, includes, cut_at, slice_from, length, Bool, true,
  false, Option, none, some, List, map, [], ◌∷◌, ◌++◌, ◌&&◌, ◌||◌, not, any, filter, if◌then◌else◌,
  leb, ◌==◌, get_or,
}
use orbitdb_relay.Peers.{is_empty}
use orbitdb_relay.Exposure.{trim}

abbrev pub is_digit : ℕ → Bool
is_digit c = leb 48 c && leb c 57

-- The number that the digits `\d+` before a dot spell, behind `n`; `none` where no dot follows
-- them.
unfoldable pub octet_from : ℕ → Text → Option ℕ
octet_from n [] = none
octet_from n (c ∷ s) =
    let rest = octet_from (n * 10 + (c - 48)) s in
    if is_digit c then rest else if c == 46 then some n else none

abbrev pub octet : Text → Option ℕ
octet [] = none
octet (c ∷ s) = if is_digit c then octet_from 0 (c ∷ s) else none

-- `addr.match(/\/ip4\/172\.(\d+)\./)`
unfoldable pub match_octet : Text → Option ℕ
unfolding octet_from
match_octet [] = none
match_octet (c ∷ s) =
    let rest = match_octet s in
    if starts_with (c ∷ s) (codes "/ip4/172.")
    then elim (octet (slice_from (c ∷ s) 9)) [ none ↦ rest | some n ↦ some n ]
    else rest

abbrev pub is_private_octet : Option ℕ → Bool
is_private_octet none = false
is_private_octet (some n) = leb 16 n && leb n 31

unfoldable pub is_public_address : Text → Bool
unfolding match_octet
is_public_address addr =
    not (is_empty addr)
    && not (includes addr (codes "/ip4/127."))
    && not (includes addr (codes "/ip4/10."))
    && not (includes addr (codes "/ip4/192.168."))
    && not (is_private_octet (match_octet addr))
    && not (includes addr (codes "/ip6/::1"))
    && not (includes addr (codes "/ip6/fc") || includes addr (codes "/ip6/fd"))
    && not (includes addr (codes "/ip6/fe80"))

abbrev pub cut_peer : Text → Text
cut_peer tail = elim (cut_at (codes "/p2p/") tail) [ none ↦ tail | some (suffix, peer) ↦ suffix ]

-- The certificate hash of the first address that has one for the transport.
unfoldable pub suffix_for : List Text → Text → Option Text
suffix_for [] transport = none
suffix_for (addr ∷ addrs) transport =
    elim (cut_at (codes "/" ++ transport ++ codes "/certhash/") addr) [
      | none ↦ suffix_for addrs transport
      | some (before, at) ↦ some (cut_peer (slice_from at (length transport + 2)))
    ]

unfoldable pub transport_of : Text → Option Text
transport_of addr =
    if includes addr (codes "/webrtc-direct")
    then some (codes "webrtc-direct")
    else if includes addr (codes "/webtransport")
    then some (codes "webtransport")
    else none

-- `${addr.slice(0, markerEnd)}/${suffix}${addr.slice(markerEnd)}`
unfoldable pub graft : Text → Text → Text → Text
graft transport suffix addr = elim (cut_at (codes "/" ++ transport) addr) [
  | none ↦ addr
  | some (before, at) ↦
      before
      ++ ((codes "/" ++ transport)
          ++ (codes "/" ++ (suffix ++ slice_from at (length (codes "/" ++ transport)))))
]

abbrev pub grafted : Option Text → Text → Text → Option Text
grafted none transport addr = none
grafted (some []) transport addr = none
grafted (some (c ∷ suffix)) transport addr = some (graft transport (c ∷ suffix) addr)

-- What becomes of one address: `none` if it is dropped.
unfoldable pub enriched : List Text → Text → Option Text
unfolding transport_of suffix_for graft
enriched addrs addr = elim (transport_of addr) [
  | none ↦ some addr
  | some transport ↦
      if includes addr (codes "/certhash/")
      then some addr
      else grafted (suffix_for addrs transport) transport addr
]

abbrev pub push_some : Option Text → List Text → List Text
push_some none addrs = addrs
push_some (some addr) addrs = addr ∷ addrs

unfoldable pub enrich_all : List Text → List Text → List Text
unfolding enriched
enrich_all donors [] = []
enrich_all donors (addr ∷ addrs) = push_some (enriched donors addr) (enrich_all donors addrs)

unfoldable pub enrich_browser_transport_certhash : List Text → List Text
unfolding enrich_all
enrich_browser_transport_certhash addrs = enrich_all addrs addrs

abbrev pub is_set : Option Text → Bool
is_set none = false
is_set (some s) = not (is_empty (trim s))

unfoldable pub is_deployed_mode : (Text → Option Text) → Bool
is_deployed_mode env =
    is_set (env (codes "PROXY_HOSTNAME"))
    || is_set (env (codes "PUBLIC_IPV4"))
    || is_set (env (codes "EXTERNAL_TCP_PORT"))
    || is_set (env (codes "EXTERNAL_WS_PORT"))
    || is_set (env (codes "EXTERNAL_WEBRTC_PORT"))
    || is_set (env (codes "EXTERNAL_QUIC_PORT"))

abbrev pub or_all : List Text → List Text → List Text
or_all [] all_of_them = all_of_them
or_all (addr ∷ addrs) all_of_them = addr ∷ addrs

-- The last lines of `filterAnnounceAddresses`.
unfoldable pub keep_reachable : Bool → List Text → List Text
keep_reachable false enriched = enriched
keep_reachable true enriched = or_all (filter is_public_address enriched) enriched

unfoldable pub filter_announce_addresses : (Text → Option Text) → List Text → List Text
unfolding enrich_browser_transport_certhash is_deployed_mode keep_reachable
filter_announce_addresses env addrs =
    keep_reachable (is_deployed_mode env) (enrich_browser_transport_certhash addrs)

-- `Multiaddr` is the type `M`.
unfoldable pub parse_all {ℓ} : {M : Type ℓ} → (Text → Option M) → List Text → List M
parse_all multiaddr [] = []
parse_all multiaddr (addr ∷ addrs) = elim (multiaddr addr) [
  | none ↦ parse_all multiaddr addrs
  | some m ↦ m ∷ parse_all multiaddr addrs
]

unfoldable pub announce_filter {ℓ} :
    {M : Type ℓ} → (Text → Option M) → (M → Text) → (Text → Option Text) → List M → List M
unfolding filter_announce_addresses parse_all
announce_filter multiaddr to_text env addrs =
    parse_all multiaddr (filter_announce_addresses env (map to_text addrs))
