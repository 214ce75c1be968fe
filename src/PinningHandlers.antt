-- ===== src/PinningHandlers.antt =====
-- src/services/database.ts, `createPinningHttpHandlers`: the handlers that the HTTP API calls, made
-- of the parts of the database service. The result of each sync pass is an argument, and so is the
-- time in print.
pub mod Laws
mod Tests
use orbitdb_relay.Prelude.{
  ℕ, Text, codes, Bool, true, false, Option, none, some, List, [], ◌∷◌, ◌&&◌, ◌||◌, not,
  if◌then◌else◌, length, ltb, get_or, is_some,
}
use orbitdb_relay.Prelude.Map
use orbitdb_relay.Values.{num, str, arr, Fields, field, end}
use orbitdb_relay.Service.{Service, Db}
use orbitdb_relay.Snapshot.{Contents}
use orbitdb_relay.Snapshot.Membership.{has_local_orbit_db_entry}
use orbitdb_relay.OnDemand.{LocalNode, Streamed, streams, refuses, stream_pinned_ipfs_content}
use orbitdb_relay.Http.Messages.{
  Called, returns, throws, SyncAnswer, PinnedContent, content, unavailable, Handlers, texts,
}

-- What `syncAllOrbitDBRecordsWithResult` comes back with.
pub record PassResult : Type 0 where
  pub success : Bool
  pub received_update : Bool
  pub fallback_scan_used : Bool
  pub extracted_media_cids : List Text
  pub entry_count : Option ℕ
  pub last_record : Option Fields
  pub snapshot_source : Text
  pub coalesced : Bool

unfoldable pub has_local_proof : PassResult → Bool
has_local_proof r =
    ltb 0 (get_or r.entry_count 0) || is_some r.last_record || ltb 0 (length r.extracted_media_cids)

abbrev pub not_ok : Text → SyncAnswer
not_ok error = record {
  ok = false;
  error = some error;
  received_update = false;
  fallback_scan_used = false;
  extracted_media_cids = [];
  entry_count = none;
  last_record = none;
  snapshot_source = none;
  coalesced = false;
}

abbrev pub answer_of : PassResult → SyncAnswer
answer_of r = if not r.success then not_ok (codes "Sync failed") else record {
  ok = true;
  error = none;
  received_update = r.received_update;
  fallback_scan_used = r.fallback_scan_used;
  extracted_media_cids = r.extracted_media_cids;
  entry_count = r.entry_count;
  last_record = r.last_record;
  snapshot_source = some r.snapshot_source;
  coalesced = r.coalesced;
}

abbrev pub end_sync : Called PassResult → SyncAnswer
end_sync (throws message) = not_ok message
end_sync (returns r) = answer_of r

-- A pass that succeeds without a local record is followed by one more.
unfoldable pub needs_another : Called PassResult → Bool
unfolding has_local_proof
needs_another (throws message) = false
needs_another (returns r) = r.success && not (has_local_proof r)

unfoldable pub sync_database : Called PassResult → Called PassResult → SyncAnswer
unfolding needs_another
sync_database first second = if needs_another first then end_sync second else end_sync first

-- `getStats`
unfoldable pub get_stats : Text → Service → Fields
get_stats timestamp service =
    field (codes "totalPinned") (num (length service.pinned_databases_by_address)) (
      field (codes "syncOperations") (num service.pinning_sync_operations) (
        field (codes "failedSyncs") (num service.pinning_failed_syncs) (
          field (codes "pinnedMediaCids") (arr (texts service.pinned_image_cids))
            (field (codes "timestamp") (str timestamp) end))))

module _ {Chunks : Type 0} where
  abbrev pub pinned_content_of : Streamed Chunks → PinnedContent
  pinned_content_of (streams chunks) = content (some (codes "application/octet-stream"))
  pinned_content_of (refuses status error) = unavailable status error

  -- The passes of a sync, where it ends in time, are `passes`; `contents` are those of a database
  -- instance.
  unfoldable pub create_pinning_http_handlers :
      Text
      → LocalNode Chunks
      → (Db → Contents)
      → (Text → Option (Called PassResult × Called PassResult))
      → Service
      → Handlers
  unfolding sync_database get_stats
  create_pinning_http_handlers timestamp node contents passes service = record {
    stats = get_stats timestamp service;
    databases = service.pinned_databases_by_address;
    sync_database = λ db_address. elim (passes db_address) [
      | none ↦ none
      | some (first, second) ↦ some (returns (sync_database first second))
    ];
    has_entry = some (λ db_address entry_hash. returns (
        has_local_orbit_db_entry
          (elim (Map.get db_address service.pinned_open_databases) [
            | none ↦ none
            | some db ↦ some (contents db)
          ])
          entry_hash));
    stream_pinned_cid =
        some (λ cid path. pinned_content_of (stream_pinned_ipfs_content node cid path));
  }
