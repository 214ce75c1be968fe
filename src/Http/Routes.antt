-- ===== src/Http/Routes.antt =====
-- src/http/pinning-http.ts, `createPinningHttpRequestHandler`: the routes, as functions from the
-- request and the handlers' answers to the reply; and `getDatabases` of src/services/database.ts.
-- The bodies of /health and /multiaddrs are arguments. `to_iso` prints a time.
use orbitdb_relay.Prelude.{
  ℕ, Text, codes, text_eq, Bool, true, false, Option, none, some, List, [], ◌∷◌, ◌++◌, ◌&&◌, not,
  map, if◌then◌else◌, length, ◌==◌, get_or,
}
use orbitdb_relay.Prelude.Map
use orbitdb_relay.Prelude.Map.{Map}
use orbitdb_relay.Values.{bool, num, str, arr, obj, Items, nil, cons, Fields, field, end}
use orbitdb_relay.Media.{at}
use orbitdb_relay.Peers.{is_empty}
use orbitdb_relay.Service.{PinnedDatabaseRecord}
use orbitdb_relay.Snapshot.Membership.{HasEntryResult}
use orbitdb_relay.Exposure.{redact_last_record, trim}
use orbitdb_relay.Http.{
  Body, json, invalid_json, param, first_search_param, pathname_only, Parsed, unhandled, refused,
  wants, parse_ipfs_request,
}
use orbitdb_relay.Http.Messages.{
  Called, FallbackMode, Handlers, Options, PinnedContent, Reply, Request, SyncAnswer, bool_or_null,
  content, fails, fetches, no_content, not_found, number_or_null, object_or_null,
  pinned_first_network_fallback, pinned_only, returns, sends, streams, text_or, text_or_null, texts,
  throws, unavailable,
}

-- The exception of a handler or of the body's reader.
abbrev pub caught : Body → Reply
caught invalid_json = fails 400 (codes "invalid_json") (codes "Invalid JSON body")
caught _ = fails 400 (codes "bad_request") (codes "body too large")

abbrev pub one_found : Option PinnedDatabaseRecord → List PinnedDatabaseRecord
one_found none = []
one_found (some entry) = entry ∷ []

unfoldable pub get_databases :
    (Text → Option Text) → Text → Map PinnedDatabaseRecord → List PinnedDatabaseRecord
get_databases decode address databases =
    if is_empty (trim address)
    then map (λ entry. entry.1) databases
    else one_found (Map.get (get_or (decode (trim address)) (trim address)) databases)

module _ (decode : Text → Option Text) (to_iso : ℕ → Text) where
  abbrev pub listed_database : Bool → PinnedDatabaseRecord → Fields
  listed_database exposed entry = field (codes "address") (str entry.address) (
      field (codes "lastSyncedAt") (str (to_iso entry.last_synced_at)) (
        field (codes "entryCount") (number_or_null entry.entry_count) (
          field (codes "lastRecord") (object_or_null (redact_last_record exposed entry.last_record))
            (field (codes "snapshotSource") (str entry.snapshot_source) end))))

  unfoldable pub listed_databases : Bool → List PinnedDatabaseRecord → Items
  listed_databases exposed [] = nil
  listed_databases exposed (entry ∷ es) =
      cons (obj (listed_database exposed entry)) (listed_databases exposed es)

  unfoldable pub databases_reply : Bool → Text → List PinnedDatabaseRecord → Reply
  unfolding listed_databases
  databases_reply exposed filter_raw found =
      if not (is_empty filter_raw) && length found == 0
      then fails 404 (codes "database_not_found")
          (codes "Database address not found in relay sync history")
      else sends (
          field (codes "databases") (arr (listed_databases exposed found))
            (field (codes "total") (num (length found)) end))

  abbrev pub coalesced_field : Bool → Fields
  coalesced_field true = field (codes "coalesced") (bool true) end
  coalesced_field false = end

  unfoldable pub sync_reply : Options → Text → Option (Called SyncAnswer) → Reply
  sync_reply options db_address none = fails 504 (codes "sync_timeout") (
      codes "Sync of "
      ++ db_address
      ++ codes " did not finish within "
      ++ options.sync_timeout
      ++ codes "ms and is still running")
  sync_reply options db_address (some (throws e)) = fails 400 (codes "bad_request") e
  sync_reply options db_address (some (returns r)) =
      if r.ok
      then sends (
          field (codes "ok") (bool true) (
            field (codes "dbAddress") (str db_address) (
              field (codes "receivedUpdate") (bool r.received_update) (
                field (codes "fallbackScanUsed") (bool r.fallback_scan_used) (
                  field (codes "extractedMediaCids") (arr (texts r.extracted_media_cids)) (
                    field (codes "entryCount") (number_or_null r.entry_count) (
                      field (codes "lastRecord")
                        (object_or_null (redact_last_record options.exposed r.last_record))
                        (field (codes "snapshotSource") (text_or_null r.snapshot_source)
                          (coalesced_field r.coalesced)))))))))
      else fails 500 (codes "sync_failed") (text_or r.error (codes "sync failed"))

  unfoldable pub sync_route : Options → Handlers → Map Text → Body → Reply
  unfolding sync_reply
  sync_route options pinning query (json body) =
      let db_address =
        param (at "dbAddress" body) (codes "dbAddress") query
          (codes "dbAddress" ∷ codes "address" ∷ []) in
      if is_empty db_address
      then fails 400 (codes "missing_db_address") (codes "Missing or invalid dbAddress")
      else sync_reply options db_address (pinning.sync_database db_address)
  sync_route options pinning query other = caught other

  unfoldable pub has_entry_reply : Text → Text → Called HasEntryResult → Reply
  has_entry_reply db_address entry_hash (throws e) = fails 400 (codes "bad_request") e
  has_entry_reply db_address entry_hash (returns r) =
      if r.ok
      then sends (
          field (codes "ok") (bool true) (
            field (codes "dbAddress") (str db_address) (
              field (codes "entryHash") (str entry_hash) (
                field (codes "hasEntry") (bool_or_null r.has_entry) (
                  field (codes "entryCount") (number_or_null r.entry_count)
                    (field (codes "source") (str r.source) end))))))
      else fails 500 (codes "sync_failed") (text_or r.error (codes "entry lookup failed"))

  abbrev pub looked_up : Text → Text → Option (Text → Text → Called HasEntryResult) → Reply
  looked_up db_address entry_hash none =
      fails 501 (codes "not_implemented") (codes "This relay cannot answer entry membership")
  looked_up db_address entry_hash (some has_entry) =
      has_entry_reply db_address entry_hash (has_entry db_address entry_hash)

  unfoldable pub has_entry_route : Handlers → Map Text → Body → Reply
  unfolding has_entry_reply
  has_entry_route pinning query (json body) =
      let db_address =
        param (at "dbAddress" body) (codes "dbAddress") query
          (codes "dbAddress" ∷ codes "address" ∷ []) in
      let entry_hash =
        param (at "entryHash" body) (codes "entryHash") query
          (codes "entryHash" ∷ codes "hash" ∷ []) in
      if is_empty db_address
      then fails 400 (codes "missing_db_address") (codes "Missing or invalid dbAddress")
      else if is_empty entry_hash
      then fails 400 (codes "missing_entry_hash") (codes "Missing or invalid entryHash")
      else looked_up db_address entry_hash pinning.has_entry
  has_entry_route pinning query other = caught other

  abbrev pub pinned_code : ℕ → Text → Text
  pinned_code status otherwise =
      if status == 503
      then codes "ipfs_unavailable"
      else if status == 400
      then codes "invalid_cid"
      else otherwise

  unfoldable pub network_reply : Bool → Text → Option Text → Reply
  network_reply has_helia cid path =
      if has_helia
      then fetches cid path
      else fails 503 (codes "ipfs_unavailable") (codes "Helia gateway is not available")

  unfoldable pub gateway_reply :
      FallbackMode → Bool → Text → Option Text → Option PinnedContent → Reply
  unfolding network_reply
  gateway_reply mode has_helia cid path (some (content content_type)) =
      streams (text_or content_type (codes "application/octet-stream"))
  gateway_reply pinned_only has_helia cid path (some (unavailable status error)) =
      fails status (pinned_code status (codes "content_not_found")) error
  gateway_reply pinned_only has_helia cid path none =
      fails 404 (codes "content_not_found") (codes "Content not pinned locally")
  gateway_reply pinned_first_network_fallback has_helia cid path (some (unavailable status error)) =
      if status == 404
      then network_reply has_helia cid path
      else fails status (pinned_code status (codes "internal_error")) error
  gateway_reply pinned_first_network_fallback has_helia cid path none =
      network_reply has_helia cid path

  abbrev pub pinned_content : Option Handlers → Text → Option Text → Option PinnedContent
  pinned_content none cid path = none
  pinned_content (some pinning) cid path = elim pinning.stream_pinned_cid [
    | none ↦ none
    | some stream_pinned_cid ↦ some (stream_pinned_cid cid path)
  ]

  unfoldable pub ipfs_reply : Options → Option Handlers → Parsed → Reply
  unfolding gateway_reply
  ipfs_reply options pinning unhandled = not_found
  ipfs_reply options pinning (refused status code error) = fails status code error
  ipfs_reply options pinning (wants cid path) =
      if options.gateway_enabled
      then gateway_reply options.fallback_mode options.has_helia cid path
          (pinned_content pinning cid path)
      else fails 404 (codes "content_not_found") (codes "IPFS gateway is disabled")

  abbrev pub ipfs_route : Options → Option Handlers → Request → Reply
  ipfs_route options pinning req =
      ipfs_reply options pinning (parse_ipfs_request decode req.method req.url)

  abbrev pub is_request : Text → Text → Request → Bool
  is_request path method req = text_eq (pathname_only req.url) path && text_eq req.method method

  unfoldable pub pinning_route : Options → Handlers → Request → Reply
  unfolding databases_reply sync_route has_entry_route ipfs_reply
  pinning_route options pinning req =
      if is_request (codes "/pinning/stats") (codes "GET") req
      then sends pinning.stats
      else if is_request (codes "/pinning/databases") (codes "GET") req
      then (let filter_raw =
            first_search_param req.query (codes "address" ∷ codes "dbAddress" ∷ []) in
          databases_reply options.exposed filter_raw
            (get_databases decode filter_raw pinning.databases))
      else if is_request (codes "/pinning/sync") (codes "POST") req
      then sync_route options pinning req.query req.body
      else if is_request (codes "/pinning/has-entry") (codes "POST") req
      then has_entry_route pinning req.query req.body
      else ipfs_route options (some pinning) req

  unfoldable pub other_route : Options → Option Handlers → Request → Reply
  unfolding pinning_route ipfs_reply
  other_route options none req = ipfs_route options none req
  other_route options (some pinning) req = pinning_route options pinning req

  -- The CORS headers of `apply_cors_headers` are on every reply.
  unfoldable pub handle_request : Fields → Fields → Options → Option Handlers → Request → Reply
  unfolding other_route
  handle_request health multiaddrs options pinning req =
      if text_eq req.method (codes "OPTIONS")
      then no_content
      else if is_request (codes "/health") (codes "GET") req
      then sends health
      else if is_request (codes "/multiaddrs") (codes "GET") req
      then sends multiaddrs
      else other_route options pinning req
