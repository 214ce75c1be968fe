-- ===== src/Http/Gateway/Tests.antt =====
-- Content that is fetched over libp2p, on concrete ends of the fetch.
use orbitdb_relay.Prelude.{
  codes, includes, starts_with, true, some, [], ◌∷◌, ◌&&◌, not, if◌then◌else◌, is_some, ◌≡◌, refl,
}
use orbitdb_relay.OnDemand.{file}
use orbitdb_relay.Http.Messages.{returns}
use orbitdb_relay.Http.Gateway.{
  Fetch, known_error, rejects, after_error, fetch_content, stream_network_fallback, written,
  is_complete, is_left_open,
}
use orbitdb_relay.Http.Gateway.Laws.{has_file, is_written, is_known, stream_network_fallback_lem}

-- The timeout aborts the fetch behind the first chunk.
abbrev slow : Fetch
slow = record {
  is_cid = true;
  stat = returns file;
  chunks = (1 ∷ 2 ∷ []) ∷ [];
  ends = some (codes "The operation was Aborted");
}

stream_network_fallback_lem_example :
    (written (stream_network_fallback slow) ≡ (if has_file slow then slow.chunks else []))
    × (is_complete (stream_network_fallback slow) ≡ (has_file slow && not (is_some slow.ends)))
    × (is_left_open (stream_network_fallback slow)
        ≡ (has_file slow && is_written slow.chunks && is_known slow.ends))
stream_network_fallback_lem_example = stream_network_fallback_lem slow

slow_is_left_open : stream_network_fallback slow ≡ rejects ((1 ∷ 2 ∷ []) ∷ [])
unfolding stream_network_fallback fetch_content after_error known_error includes starts_with
slow_is_left_open = refl
