-- ===== src/PinningHandlers/Tests.antt =====
-- The handlers of the HTTP API on a concrete node.
use orbitdb_relay.Prelude.{
  ℕ, Text, codes, text_eq, true, false, Option, none, some, [], ◌&&◌, ◌||◌, ◌≡◌, refl,
}
use orbitdb_relay.Service.{new_service, Db}
use orbitdb_relay.Snapshot.{Contents}
use orbitdb_relay.OnDemand.{LocalNode, file}
use orbitdb_relay.Http.{wants}
use orbitdb_relay.Http.Routes.{ipfs_reply, gateway_reply, network_reply}
use orbitdb_relay.Http.Messages.{Called, returns, Options, pinned_first_network_fallback, fetches}
use orbitdb_relay.OnDemand.{stream_pinned_ipfs_content}
use orbitdb_relay.Http.Blank.{is_fetch}
use orbitdb_relay.PinningHandlers.{PassResult, sync_database, create_pinning_http_handlers}
use orbitdb_relay.PinningHandlers.Laws.{
  succeeds, proves, answer_proves, sync_database_lem, is_stream, falls_back, is_served_locally,
  is_absent, ipfs_reply_lem,
}

-- A pass that finds no record.
abbrev bare : PassResult
bare = record {
  success = true;
  received_update = false;
  fallback_scan_used = false;
  extracted_media_cids = [];
  entry_count = some 0;
  last_record = none;
  snapshot_source = codes "db.all()";
  coalesced = false;
}

sync_database_lem_example :
    ((sync_database (returns bare) (returns (record bare { entry_count = some 2 }))).ok ≡ (
      succeeds (returns bare)
      && (proves (returns bare) || succeeds (returns (record bare { entry_count = some 2 })))))
    × (answer_proves (sync_database (returns bare) (returns (record bare { entry_count = some 2 })))
        ≡ (proves (returns bare)
            || (succeeds (returns bare)
                && proves (returns (record bare { entry_count = some 2 })))))
sync_database_lem_example =
    sync_database_lem (returns bare) (returns (record bare { entry_count = some 2 }))

abbrev node : LocalNode ℕ
node = record {
  is_available = true;
  is_cid = λ cid. true;
  is_pinned = λ cid. some (text_eq cid (codes "baf"));
  stat_offline = λ cid path. some file;
  cat_offline = λ cid path. 1;
  block_offline = λ cid. none;
}

abbrev options : Options
options = record {
  gateway_enabled = true;
  fallback_mode = pinned_first_network_fallback;
  has_helia = true;
  exposed = false;
  sync_timeout = codes "120000";
}

abbrev contents : Db → Contents
contents db = record { all = none; iterator = none }

abbrev decode : Text → Option Text
decode s = some s

abbrev to_iso : ℕ → Text
to_iso time = codes "2026"

abbrev passes : Text → Option (Called PassResult × Called PassResult)
passes db_address = none

ipfs_reply_lem_example :
    (is_stream (
        ipfs_reply decode to_iso options
          (some (create_pinning_http_handlers (codes "2026") node contents passes new_service))
          (wants (codes "qm") none))
      ≡ is_served_locally node (codes "qm") none)
    × (is_fetch (
          ipfs_reply decode to_iso options
            (some (create_pinning_http_handlers (codes "2026") node contents passes new_service))
            (wants (codes "qm") none))
        ≡ (falls_back options.fallback_mode
            && options.has_helia
            && is_absent node (codes "qm") none))
ipfs_reply_lem_example =
    ipfs_reply_lem decode to_iso (codes "2026") node contents passes options new_service
      (codes "qm") none refl

-- What is not pinned is fetched over the network.
unpinned :
    ipfs_reply decode to_iso options
      (some (create_pinning_http_handlers (codes "2026") node contents passes new_service))
      (wants (codes "qm") none)
    ≡ fetches (codes "qm") none
unfolding ipfs_reply gateway_reply network_reply create_pinning_http_handlers
    stream_pinned_ipfs_content text_eq
unpinned = refl
