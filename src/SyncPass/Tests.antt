-- ===== src/SyncPass/Tests.antt =====
-- A sync pass of src/services/database.ts on concrete records and databases.
use orbitdb_relay.Prelude.{
  false, ◌+◌, Text, codes, text_eq, true, Bool, Option, some, none, [], ◌∷◌, ◌≡◌, refl, ◌||◌,
  if◌then◌else◌,
}
use orbitdb_relay.Prelude.Map
use orbitdb_relay.Values.{Value, str, obj, field, end, lookup}
use orbitdb_relay.Media.References.{offers}
use orbitdb_relay.Peers.{is_held_open}
use orbitdb_relay.Pinning.{pin_run}
use orbitdb_relay.Pinning.Laws.{PinInv, pin_run-PinInv}
use orbitdb_relay.Retention.{count_use, release_open_database}
use orbitdb_relay.Service.{Db, Service, new_service}
use orbitdb_relay.Snapshot.{Snapshot, Listing, rows}
use orbitdb_relay.Watch.{is_instance, unwatch_database_updates}
use orbitdb_relay.Watch.Laws.{IsAccounted}
use orbitdb_relay.SyncPass.{
  Locals, silence, has_replicated_state, note_failure, harvest, conclude, clean_up,
}
use orbitdb_relay.SyncPass.Held.{
  Sees, in_row, shows_state, harvest-IsAccounted, conclude-holds_open,
}
use orbitdb_relay.SyncPass.Uses.{uses, clean_up-uses}

abbrev no_json : Text → Option Value
no_json text = none

abbrev row : Value
row = obj (field (codes "value") (obj (field (codes "mediaId") (str (codes "bafy")) end)) end)

abbrev scan : Option Listing
scan = some (rows (row ∷ []))

row_seen : Sees no_json (codes "bafy") silence scan
unfolding lookup text_eq
row_seen = in_row [] row [] (offers refl)

new_service-PinInv : PinInv new_service (codes "bafy")
unfolding pin_run
new_service-PinInv = pin_run-PinInv true [] (codes "bafy")

harvest-IsAccounted_example :
    IsAccounted (codes "bafy") (harvest no_json true (codes "/orbitdb/a") silence scan new_service)
harvest-IsAccounted_example =
    harvest-IsAccounted no_json (codes "/orbitdb/a") (codes "bafy") silence scan new_service
      new_service-PinInv refl row_seen

abbrev all_have_events : Db → Bool
all_have_events db = true

abbrev locals : Locals
locals = record {
  db_address = codes "/orbitdb/a";
  acl_address = some (codes "/orbitdb/b");
  db = some 7;
  acl_db = some 8;
}

abbrev counted_one : Snapshot
counted_one = record { entry_count = some 1; last_record = none; source = codes "db.all()" }

conclude-holds_open_example :
    is_held_open
      (clean_up locals (
        conclude all_have_events
          (codes "/orbitdb/a")
          7
          (some (codes "/orbitdb/b"))
          (some 8)
          (has_replicated_state counted_one false [])
          5
          counted_one
          new_service))
      (codes "/orbitdb/a")
    ≡ (shows_state counted_one false [] || is_held_open new_service (codes "/orbitdb/a"))
conclude-holds_open_example =
    conclude-holds_open all_have_events locals 7 false [] 5 counted_one new_service

abbrev watched_and_held : Service
watched_and_held = record new_service {
  event_handlers = (codes "/orbitdb/a", 7) ∷ (codes "/orbitdb/b", 8) ∷ [];
  pinned_open_databases = (codes "/orbitdb/a", 7) ∷ [];
}

still_watched :
    Map.has (codes "/orbitdb/a") (clean_up locals watched_and_held).event_handlers ≡ true
unfolding clean_up Map.get text_eq unwatch_database_updates release_open_database Map.delete
still_watched = refl

abbrev held_already : Bool
held_already = is_instance 7 (Map.get (codes "/orbitdb/a") watched_and_held.pinned_open_databases)

clean_up-uses_example :
    (uses (codes "/orbitdb/a") (
        clean_up locals (
          conclude all_have_events
            (codes "/orbitdb/a")
            7
            (some (codes "/orbitdb/b"))
            (some 8)
            (has_replicated_state counted_one false [])
            5
            counted_one
            (count_use (codes "/orbitdb/a") watched_and_held)))
      ≡ (if shows_state counted_one false [] || held_already
          then uses (codes "/orbitdb/a") watched_and_held + 1
          else uses (codes "/orbitdb/a") watched_and_held))
    × (uses
          (codes "/orbitdb/a")
          (clean_up locals (note_failure (count_use (codes "/orbitdb/a") watched_and_held)))
        ≡ (if held_already
            then uses (codes "/orbitdb/a") watched_and_held + 1
            else uses (codes "/orbitdb/a") watched_and_held))
unfolding text_eq
clean_up-uses_example =
    clean_up-uses all_have_events locals 7 false [] 5 counted_one watched_and_held refl refl
