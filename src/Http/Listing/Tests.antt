-- ===== src/Http/Listing/Tests.antt =====
-- The addresses of /multiaddrs on a concrete node.
use orbitdb_relay.Prelude.{Text, codes, true, none, Option, List, [], ◌∷◌, ◌≡◌}
use orbitdb_relay.Prelude.TextSet
use orbitdb_relay.Announce.{filter_announce_addresses}
use orbitdb_relay.Http.Listing.{listed_addresses}
use orbitdb_relay.Http.Listing.Laws.{IsPublicFirst, has-listed_addresses}

abbrev env : Text → Option Text
env name = none

abbrev addrs : List Text
addrs = codes "/ip4/127.0.0.1/tcp/1" ∷ codes "/ip4/9.9.9.9/tcp/1" ∷ []

has-listed_addresses_example :
    ((x : Text)
      → TextSet.has x (listed_addresses (λ a b. true) env addrs)
        ≡ TextSet.has x (filter_announce_addresses env addrs))
    × IsPublicFirst (listed_addresses (λ a b. true) env addrs)
has-listed_addresses_example = has-listed_addresses (λ a b. true) env addrs
