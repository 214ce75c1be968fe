-- ===== src/Watch.antt =====
-- src/services/database.ts, `watchDatabaseUpdates` and `unwatchDatabaseUpdates`: the listener on an
-- open database, its batch timer, and what it does with a batch of updates. `has_events` says
-- whether a database instance has an event emitter.
mod Tests
pub mod Laws
use Prim.Native.String.{String}
use orbitdb_relay.Prelude.{
  ℕ, Text, codes, Bool, true, false, Option, none, some, List, map, [], ◌∷◌, ◌||◌, not,
  if◌then◌else◌, ◌==◌, is_some,
}
use orbitdb_relay.Prelude.Map
use orbitdb_relay.Prelude.TextSet
use orbitdb_relay.Values.{Value, obj, field, end, coalesce}
use orbitdb_relay.Media.{at, ExtractedMediaCid, extract_image_cids}
use orbitdb_relay.Discovery.{remember_known_database_addresses_from_records}
use orbitdb_relay.Service.{Service, Db}
use orbitdb_relay.Pinning.{enqueue_image_cids_for_pinning}

unfoldable pub unwatch_database_updates : Text → Service → Service
unwatch_database_updates db_address service = record service {
  event_handlers = Map.delete db_address service.event_handlers;
  update_timers = TextSet.delete db_address service.update_timers;
}

-- `this.eventHandlers.get(dbAddress)?.db === db`
abbrev pub is_instance : Db → Option Db → Bool
is_instance db none = false
is_instance db (some other) = other == db

unfoldable pub watch_database_updates : (Db → Bool) → Text → Db → Service → Service
unfolding unwatch_database_updates
watch_database_updates has_events db_address db service =
    if not (has_events db) || is_instance db (Map.get db_address service.event_handlers)
    then service
    else (let unwatched = unwatch_database_updates db_address service in
        record unwatched { event_handlers = Map.set db_address db unwatched.event_handlers })

-- `onUpdate`: the entries wait for the timer, which is set unless it is.
unfoldable pub on_update : Text → Service → Service
on_update db_address service = record service {
  update_timers = TextSet.add db_address service.update_timers;
}

-- `entry?.payload?.value ?? entry?.value ?? entry`, as the record `{ value: … }`.
unfoldable pub update_record : Value → Value
update_record entry = obj (
    field (codes "value")
      (coalesce (at "value" (at "payload" entry)) (coalesce (at "value" entry) entry)) end)

abbrev pub is_nil : List Value → Bool
is_nil [] = true
is_nil (v ∷ vs) = false

module _ (parse_json : Text → Option Value) (has_pins : Bool) where
  -- What a batch of records leaves behind: known addresses, and its CIDs on the pin queue.
  unfoldable pub take_records : Text → List Value → Service → Service
  take_records db_address records service =
      enqueue_image_cids_for_pinning has_pins (extract_image_cids parse_json records) db_address
        (record service {
          known_databases_by_address =
              remember_known_database_addresses_from_records records
                service.known_databases_by_address;
        })

  -- `flush` up to its first await.
  unfoldable pub flush : Text → List Value → Service → Service
  unfolding take_records update_record
  flush db_address updates service =
      let fired = record service {
        update_timers = TextSet.delete db_address service.update_timers;
      } in
      if is_nil updates || fired.is_shutting_down
      then fired
      else take_records db_address (map update_record updates) fired
