-- ===== src/Service.antt =====
-- src/services/database.ts, the state of `DatabaseService`. A database instance, as `===` tells it
-- apart, is a number; so is a promise of an operation in flight. Times are in milliseconds. The
-- maps `identityDatabases` and `databaseContexts`, which no method reads, are left out.
use orbitdb_relay.Prelude.{ℕ, Text, Bool, false, Option, List, []}
use orbitdb_relay.Prelude.Map.{Map}
use orbitdb_relay.Prelude.TextSet.{TextSet}
use orbitdb_relay.Values.{Fields}

abbrev pub Db : Type 0
Db = ℕ

-- `InFlightRecord`
pub record InFlight : Type 0 where
  pub promise : ℕ
  pub started_at : ℕ

-- `PinnedDatabaseRecord`
pub record PinnedDatabaseRecord : Type 0 where
  pub address : Text
  pub last_synced_at : ℕ
  pub entry_count : Option ℕ
  pub last_record : Option Fields
  pub snapshot_source : Text

-- One task of the pin queue: the CID, the database that referenced it and the fields that did.
pub record PinTask : Type 0 where
  pub cid : Text
  pub db_address : Text
  pub sources : List Text

-- The tasks that were handed to a p-queue and have not settled. When a waiting task starts is the
-- queue's choice, and an event of the model.
pub record Tasks {ℓ} (A : Type ℓ) : Type ℓ where
  pub waiting : List A
  pub running : List A

pub record Service : Type 0 where
  pub update_timers : TextSet
  pub event_handlers : Map Db
  pub sync_in_flight : Map InFlight
  pub open_in_flight : Map InFlight
  pub database_use_counts : Map ℕ
  pub pinned_open_databases : Map Db
  pub pin_queue : Tasks PinTask
  pub queued_image_cids : TextSet
  pub pinned_image_cids : TextSet
  pub is_shutting_down : Bool
  pub pinning_sync_operations : ℕ
  pub pinning_failed_syncs : ℕ
  pub pinned_databases_by_address : Map PinnedDatabaseRecord
  pub known_databases_by_address : TextSet
  pub orbit_db_name_by_address : Map Text
  pub known_database_peers : Map (Map Text)

-- The constructor of the class.
abbrev pub new_service : Service
new_service = record {
  update_timers = [];
  event_handlers = [];
  sync_in_flight = [];
  open_in_flight = [];
  database_use_counts = [];
  pinned_open_databases = [];
  pin_queue = record { waiting = []; running = [] };
  queued_image_cids = [];
  pinned_image_cids = [];
  is_shutting_down = false;
  pinning_sync_operations = 0;
  pinning_failed_syncs = 0;
  pinned_databases_by_address = [];
  known_databases_by_address = [];
  orbit_db_name_by_address = [];
  known_database_peers = [];
}
