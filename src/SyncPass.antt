-- ===== src/SyncPass.antt =====
-- src/services/database.ts, one sync pass of `syncAllOrbitDBRecordsWithResult`, cut where it
-- awaits: what it does with the manifest's controller address, with what it hears from the
-- database, with the snapshot, on an exception, and in its `finally`. Its first part is in
-- SyncFlight, the opens are in Retention.
mod Tests
pub mod Held
mod Watched
pub mod Uses
use orbitdb_relay.Prelude.{
  ℕ, suc, Text, codes, text_eq, Bool, true, false, Option, none, some, List, map, [], ◌∷◌, ◌||◌,
  ◌&&◌, not, if◌then◌else◌, is_some,
}
use orbitdb_relay.Prelude.Map
use orbitdb_relay.Addresses.{normalize_orbitdb_access_address, remember_known_database_address}
use orbitdb_relay.Values.{Value, obj, field, end, coalesce}
use orbitdb_relay.Media.{at, extract_image_cids}
use orbitdb_relay.Service.{Service, Db}
use orbitdb_relay.Snapshot.{Snapshot, Listing, rows, no_array, fails}
use orbitdb_relay.Proofs.{has_entries, record_sync_proof}
use orbitdb_relay.Retention.{release_open_database}
use orbitdb_relay.Watch.{
  watch_database_updates, unwatch_database_updates, is_instance, update_record, take_records,
  is_nil,
}

-- The locals of a pass that its last parts read.
pub record Locals : Type 0 where
  pub db_address : Text
  pub acl_address : Option Text
  pub db : Option Db
  pub acl_db : Option Db

-- `aclDbAddress`, remembered.
unfoldable pub note_access_controller : Option Text → Service → Service
note_access_controller access_controller service = record service {
  known_databases_by_address =
      remember_known_database_address (normalize_orbitdb_access_address access_controller)
        service.known_databases_by_address;
}

-- `{ value: row?.value ?? row }`
unfoldable pub scan_record : Value → Value
scan_record row = obj (field (codes "value") (coalesce (at "value" row) row) end)

-- What `waitForUpdateEvent` comes back with: a burst of updates, or nothing within its time.
pub data Heard : Type 0 where
  burst : List Value → Heard
  silence : Heard

-- The rows of the fallback scan, which an exception leaves at none.
unfoldable pub scanned : Option Listing → List Value
scanned none = []
scanned (some (rows vs)) = vs
scanned (some no_array) = []
scanned (some (fails e)) = []

-- The records that the pass looks at: the updates, or else the rows of `db.all()`.
unfoldable pub heard_records : Heard → Option Listing → List Value
unfolding update_record scan_record scanned
heard_records (burst updates) listing = map update_record updates
heard_records silence listing = map scan_record (scanned listing)

unfoldable pub fallback_scan_used : Heard → Option Listing → Bool
unfolding scanned
fallback_scan_used (burst updates) listing = false
fallback_scan_used silence listing = not (is_nil (scanned listing))

module _ (parse_json : Text → Option Value) (has_pins : Bool) where
  abbrev pub extracted_media_cids : List Value → List Text
  extracted_media_cids records = Map.keys (extract_image_cids parse_json records)

  -- The look at the records. Of no records it finds no addresses and no CIDs.
  unfoldable pub harvest : Text → Heard → Option Listing → Service → Service
  unfolding heard_records
  harvest db_address heard listing service =
      take_records parse_json has_pins db_address (heard_records heard listing) service

-- `hasReplicatedState`
unfoldable pub has_replicated_state : Snapshot → Bool → List Text → Bool
has_replicated_state snapshot received_update [] =
    has_entries snapshot.entry_count || is_some snapshot.last_record || received_update
has_replicated_state snapshot received_update (cid ∷ cids) = true

module _ (has_events : Db → Bool) where
  -- The database stays open, and is watched.
  unfoldable pub hold_open : Text → Db → Service → Service
  hold_open db_address db service =
      watch_database_updates has_events db_address db (record service {
        pinned_open_databases = Map.set db_address db service.pinned_open_databases;
      })

  unfoldable pub hold_controller : Option Text → Option Db → Service → Service
  unfolding hold_open
  hold_controller (some acl_address) (some acl_db) service = hold_open acl_address acl_db service
  hold_controller _ _ service = service

  -- What follows the snapshot.
  unfoldable pub conclude :
      Text → Db → Option Text → Option Db → Bool → ℕ → Snapshot → Service → Service
  unfolding hold_open hold_controller
  conclude db_address db acl_address acl_db replicated now snapshot service =
      let proven = record_sync_proof service db_address now snapshot in
      if replicated
      then hold_controller acl_address acl_db (hold_open db_address db proven)
      else proven

-- The `catch`.
unfoldable pub note_failure : Service → Service
note_failure service = record service { pinning_failed_syncs = suc service.pinning_failed_syncs }

-- The `finally`: an address is no longer watched unless its database is held open.
unfoldable pub unwatch_unheld : Text → Service → Service
unwatch_unheld db_address service =
    if Map.has db_address service.pinned_open_databases
    then service
    else unwatch_database_updates db_address service

unfoldable pub unwatch_controller : Option Text → Text → Service → Service
unfolding unwatch_unheld
unwatch_controller none db_address service = service
unwatch_controller (some acl_address) db_address service =
    if text_eq acl_address db_address then service else unwatch_unheld acl_address service

-- An instance that is not the one held open is given back; the first part is what it closes.
unfoldable pub release_unheld : Text → Option Db → Service → Option Db × Service
release_unheld db_address none service = (none, service)
release_unheld db_address (some db) service =
    if is_instance db (Map.get db_address service.pinned_open_databases)
    then (none, service)
    else release_open_database db_address db service

-- The controller is given back too, unless it is the database itself.
unfoldable pub release_controller :
    Option Text → Option Db → Option Db → Service → Option Db × Service
unfolding release_unheld
release_controller (some acl_address) (some acl_db) db service =
    if is_instance acl_db db
    then (none, service)
    else release_unheld acl_address (some acl_db) service
release_controller _ _ db service = (none, service)

-- The whole `finally`, when nothing else happens while it closes the database.
unfoldable pub clean_up : Locals → Service → Service
unfolding unwatch_unheld unwatch_controller release_unheld release_controller
clean_up l service =
    let unwatched =
      unwatch_controller l.acl_address l.db_address (unwatch_unheld l.db_address service) in
    let released = (release_unheld l.db_address l.db unwatched).1 in
    (release_controller l.acl_address l.acl_db l.db released).1
