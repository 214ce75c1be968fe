-- ===== src/PinningHandlers/Laws.antt =====
-- Theorems about the handlers of the HTTP API and the replies that src/http/pinning-http.ts makes
-- of their answers.
use orbitdb_relay.Prelude.{
  ℕ, Text, Bool, true, false, Option, some, ◌&&◌, ◌||◌, not, length, ltb, get_or, is_some, ◌≡◌,
  arith,
}
use orbitdb_relay.Service.{Service, Db}
use orbitdb_relay.Snapshot.{Contents}
use orbitdb_relay.OnDemand.{
  LocalNode, Entry, file, stream_pinned_ipfs_content, stream_content, single_block,
}
use orbitdb_relay.OnDemand.Laws.{is_local}
use orbitdb_relay.Http.{wants}
use orbitdb_relay.Http.Routes.{ipfs_reply, gateway_reply, network_reply}
use orbitdb_relay.Http.Messages.{
  Called, returns, throws, SyncAnswer, Options, FallbackMode, pinned_only,
  pinned_first_network_fallback, Reply,
}
use orbitdb_relay.Http.Messages
use orbitdb_relay.Http.Blank.{is_fetch}
use orbitdb_relay.PinningHandlers.{
  PassResult, has_local_proof, needs_another, sync_database, create_pinning_http_handlers,
}

abbrev pub succeeds : Called PassResult → Bool
succeeds (throws message) = false
succeeds (returns r) = r.success

abbrev pub proves : Called PassResult → Bool
proves (throws message) = false
proves (returns r) = r.success && has_local_proof r

abbrev pub answer_proves : SyncAnswer → Bool
answer_proves a =
    a.ok
    && (ltb 0 (get_or a.entry_count 0)
        || is_some a.last_record
        || ltb 0 (length a.extracted_media_cids))

-- An explicit sync is answered with `ok` exactly if its first pass succeeds and, where that finds
-- nothing locally, the second one does; the answer shows local records exactly if one of those
-- passes found them.
pub sync_database_lem :
    (first second : Called PassResult)
    → ((sync_database first second).ok ≡ (succeeds first && (proves first || succeeds second)))
      × (answer_proves (sync_database first second)
          ≡ (proves first || (succeeds first && proves second)))
unfolding sync_database needs_another has_local_proof
sync_database_lem first second = ground arith

abbrev pub is_stream : Reply → Bool
is_stream (Messages.streams content_type) = true
is_stream _ = false

abbrev pub falls_back : FallbackMode → Bool
falls_back pinned_only = false
falls_back pinned_first_network_fallback = true

abbrev pub is_file : Option Entry → Bool
is_file (some file) = true
is_file _ = false

module _ {Chunks : Type 0} (node : LocalNode Chunks) (cid : Text) (path : Option Text) where
  abbrev pub is_pinned_here : Bool
  is_pinned_here = node.is_available && node.is_cid cid && get_or (node.is_pinned cid) false

  abbrev pub is_served_locally : Bool
  is_served_locally = is_pinned_here && is_local node cid path (node.stat_offline cid path)

  -- The node can tell that it does not have the content.
  abbrev pub is_absent : Bool
  is_absent =
      node.is_available
      && node.is_cid cid
      && is_some (node.is_pinned cid)
      && not (is_pinned_here && is_some (node.stat_offline cid path))
      && not is_served_locally

module _ {Chunks : Type 0} (decode : Text → Option Text) (to_iso : ℕ → Text) (timestamp : Text)
    (node : LocalNode Chunks) (contents : Db → Contents)
    (passes : Text → Option (Called PassResult × Called PassResult)) where
  -- GET /ipfs/<cid> over the handlers of the database service, where the gateway is enabled,
  -- streams exactly the content that is pinned and there locally. It goes to the network exactly if
  -- the node is there, the fallback is on and the relay can tell that it does not have the content.
  pub ipfs_reply_lem :
      (options : Options) (service : Service) (cid : Text) (path : Option Text)
      → options.gateway_enabled ≡ true
      → (is_stream (
            ipfs_reply decode to_iso options
              (some (create_pinning_http_handlers timestamp node contents passes service))
              (wants cid path))
          ≡ is_served_locally node cid path)
        × (is_fetch (
              ipfs_reply decode to_iso options
                (some (create_pinning_http_handlers timestamp node contents passes service))
                (wants cid path))
            ≡ (falls_back options.fallback_mode && options.has_helia && is_absent node cid path))
  unfolding ipfs_reply gateway_reply network_reply create_pinning_http_handlers
      stream_pinned_ipfs_content stream_content single_block
  ipfs_reply_lem options service cid path enabled = ground arith
