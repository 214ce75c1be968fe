-- ===== src/Watch/Laws.antt =====
-- Theorems about the listeners on open databases in src/services/database.ts.
use orbitdb_relay.Prelude.{
  Text, text_eq, text_eq_iff, Bool, true, false, Option, none, some, List, [], ◌∷◌, map, ◌≡◌, refl,
  ap, arith, ◌⊎◌, ◌↔◌, ==_iff, if◌then◌else◌,
}
use orbitdb_relay.Prelude.Map
use orbitdb_relay.Prelude.TextSet
use orbitdb_relay.Values.{Value}
use orbitdb_relay.Media.{extract_image_cids}
use orbitdb_relay.Media.Laws.{Referenced, extract_image_cids_iff}
use orbitdb_relay.Discovery.{remember_known_database_addresses_from_records}
use orbitdb_relay.Discovery.Laws.{Added, Held, remember_records_iff}
use orbitdb_relay.Pinning.{enqueue_image_cids_for_pinning, enqueue_all, enqueue_one}
use orbitdb_relay.Pinning.Laws.{PinInv, accounted, outstanding}
use orbitdb_relay.Service.{Service, Db}
use orbitdb_relay.Watch.{
  watch_database_updates, unwatch_database_updates, is_instance, take_records, flush, update_record,
}

watched_instance : (db : Db) (o : Option Db) → is_instance db o ≡ true → o ≡ some db
watched_instance db none e = cc
watched_instance db (some other) e = ground (arith, e, ==_iff other db)

-- After `watchDatabaseUpdates` the address is watched on the given instance, if that has events,
-- and the listeners of other addresses are as before.
watch_database_updates_lem :
    (has_events : Db → Bool) (a b : Text) (db : Db) (s : Service)
    → has_events db ≡ true
    → Map.get b (watch_database_updates has_events a db s).event_handlers
      ≡ (if text_eq a b then some db else Map.get b s.event_handlers)
unfolding watch_database_updates unwatch_database_updates
watch_database_updates_lem has_events a b db s e = ground (
  arith,
  e,
  Map.get-set b a db (Map.delete a s.event_handlers),
  Map.get-delete b a s.event_handlers,
  text_eq_iff a b,
  watched_instance db (Map.get a s.event_handlers),
)

-- The CID is pinned, or it is queued with one task outstanding.
abbrev pub IsAccounted : Text → Service → Type 0
IsAccounted c s = (TextSet.has c s.pinned_image_cids ≡ true) ⊎ (outstanding c s ≡ 1)

pub take_records-IsAccounted :
    (parse_json : Text → Option Value) (a c : Text) (records : List Value) (s : Service)
    → PinInv s c
    → s.is_shutting_down ≡ false
    → Referenced parse_json c records
    → IsAccounted c (take_records parse_json true a records s)
unfolding take_records
take_records-IsAccounted parse_json a c records s v up r =
    let known =
      remember_known_database_addresses_from_records records s.known_databases_by_address in
    accounted (extract_image_cids parse_json records) a c
      (record s { known_databases_by_address = known })
      (record { single = v.single; exact = v.exact; apart = v.apart }) up
      ((extract_image_cids_iff parse_json c records).1 r)

enqueue_all_known :
    (a : Text) (es : List (Text × List Text)) (s : Service)
    → (enqueue_all a es s).known_databases_by_address ≡ s.known_databases_by_address
unfolding enqueue_all enqueue_one
enqueue_all_known a [] s = refl
enqueue_all_known a ((d, sources) ∷ es) s =
    ground (arith, enqueue_all_known a es (enqueue_one a (d, sources) s))

enqueue_known :
    (has_pins : Bool) (es : List (Text × List Text)) (a : Text) (s : Service)
    → (enqueue_image_cids_for_pinning has_pins es a s).known_databases_by_address
      ≡ s.known_databases_by_address
unfolding enqueue_image_cids_for_pinning
enqueue_known has_pins es a s = ground (arith, enqueue_all_known a es s)

pub take_records_known :
    (parse_json : Text → Option Value) (has_pins : Bool) (a d : Text) (records : List Value)
    (s : Service)
    → (TextSet.has d (take_records parse_json has_pins a records s).known_databases_by_address
        ≡ true)
      ↔ Added d (Held d records) s.known_databases_by_address
unfolding take_records
take_records_known parse_json has_pins a d records s =
    let known =
      remember_known_database_addresses_from_records records s.known_databases_by_address in
    rw
      (enqueue_known has_pins (extract_image_cids parse_json records) a
        (record s { known_databases_by_address = known }))
      (remember_records_iff d records s.known_databases_by_address)

flush_up :
    (parse_json : Text → Option Value) (a : Text) (u : Value) (us : List Value) (s : Service)
    → s.is_shutting_down ≡ false
    → flush parse_json true a (u ∷ us) s
      ≡ take_records parse_json true a
          (map update_record (u ∷ us))
          (record s { update_timers = TextSet.delete a s.update_timers })
unfolding flush
flush_up parse_json a u us s up =
    let fired = record s { update_timers = TextSet.delete a s.update_timers } in
    ap (λ b. if b then fired else take_records parse_json true a (map update_record (u ∷ us)) fired)
      up

-- No update of a batch is lost: when the timer fires before the shutdown, every CID that an update
-- references is then pinned, or queued with exactly one task outstanding, on a node with a pin
-- interface whose queue is in order for the CID.
flush-IsAccounted :
    (parse_json : Text → Option Value) (a c : Text) (updates : List Value) (s : Service)
    → PinInv s c
    → s.is_shutting_down ≡ false
    → Referenced parse_json c (map update_record updates)
    → IsAccounted c (flush parse_json true a updates s)
flush-IsAccounted parse_json a c [] s v up r = absurd r
flush-IsAccounted parse_json a c (u ∷ us) s v up r =
    let fired = record s { update_timers = TextSet.delete a s.update_timers } in
    rw (flush_up parse_json a u us s up) (
      take_records-IsAccounted parse_json a c (map update_record (u ∷ us)) fired
        (record { single = v.single; exact = v.exact; apart = v.apart }) up r)
