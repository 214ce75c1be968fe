-- ===== src/Http/Gateway/Laws.antt =====
-- Theorems about content that src/http/pinning-http.ts fetches over libp2p.
use orbitdb_relay.Prelude.{
  Text, Bytes, Bool, true, false, Option, none, some, List, [], ◌∷◌, ◌&&◌, not, if◌then◌else◌,
  is_some, ◌≡◌, arith,
}
use orbitdb_relay.OnDemand.{file}
use orbitdb_relay.Http.Messages.{returns}
use orbitdb_relay.Http.Gateway.{
  Fetch, known_error, stream_network_fallback, written, is_complete, is_left_open,
}

abbrev pub has_file : Fetch → Bool
has_file fetch = fetch.is_cid && (elim fetch.stat [ returns file ↦ true | _ ↦ false ])

abbrev pub is_known : Option Text → Bool
is_known none = false
is_known (some message) = is_some (known_error message)

abbrev pub is_written : List Bytes → Bool
is_written [] = false
is_written (chunk ∷ chunks) = true

-- A client gets every chunk that comes before an error, in order, and nothing else. The response
-- says that it is complete exactly if the file is there and no error ended it; it is left open
-- exactly if one of the known errors comes behind the first chunk.
pub stream_network_fallback_lem :
    (fetch : Fetch)
    → (written (stream_network_fallback fetch) ≡ (if has_file fetch then fetch.chunks else []))
      × (is_complete (stream_network_fallback fetch) ≡ (has_file fetch && not (is_some fetch.ends)))
      × (is_left_open (stream_network_fallback fetch)
          ≡ (has_file fetch && is_written fetch.chunks && is_known fetch.ends))
unfolding stream_network_fallback
stream_network_fallback_lem fetch = ground arith
