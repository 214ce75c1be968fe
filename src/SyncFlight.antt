-- ===== src/SyncFlight.antt =====
-- src/services/database.ts, `syncAllOrbitDBRecordsWithResult` up to the sync pass itself and after
-- it: which request starts a pass, which waits for the pass that runs, and the record of that pass.
-- A call is cut where it awaits; the parts of different calls follow one another in any order.
mod Tests
pub mod Laws
use orbitdb_relay.Prelude.{
  ℕ, suc, ◌+◌, Text, codes, Bool, true, false, Option, none, some, List, [], ◌∷◌, ◌++◌, ◌≡◌,
  if◌then◌else◌, ◌==◌,
}
use orbitdb_relay.Prelude.Map
use orbitdb_relay.Addresses.{remember_known_database_address}
use orbitdb_relay.Retention.{is_in_flight}
use orbitdb_relay.Service.{Service, InFlight, PinnedDatabaseRecord}
use orbitdb_relay.Snapshot.{Snapshot}

-- The first decision about a request. A record in flight is told apart by its promise.
pub data Admission : Type 0 where
  refused : Admission
  waits : InFlight → Admission
  waits_fresh : InFlight → Admission
  begins : Admission

abbrev pub admit_existing : Bool → Option InFlight → Admission
admit_existing require_fresh none = begins
admit_existing true (some existing) = waits_fresh existing
admit_existing false (some existing) = waits existing

unfoldable pub admit : Bool → Text → Service → Admission
admit require_fresh db_address service =
    if service.is_shutting_down
    then refused
    else admit_existing require_fresh (Map.get db_address service.sync_in_flight)

-- What a request is answered. The media CIDs and whether an update came are those of its own pass.
pub record SyncResult : Type 0 where
  pub success : Bool
  pub snapshot : Snapshot
  pub coalesced : Bool

abbrev pub empty_result : SyncResult
empty_result = record {
  success = false;
  snapshot = record { entry_count = none; last_record = none; source = codes "not-synced" };
  coalesced = false;
}

-- The answer to a request that has waited for the pass in flight and finds it still there.
unfoldable pub coalesced_result : Option PinnedDatabaseRecord → SyncResult
coalesced_result none = record {
  success = false;
  snapshot = record {
    entry_count = none;
    last_record = none;
    source = codes "coalesced-without-pinned-record";
  };
  coalesced = true;
}
coalesced_result (some pinned) = record {
  success = true;
  snapshot = record {
    entry_count = pinned.entry_count;
    last_record = pinned.last_record;
    source = pinned.snapshot_source;
  };
  coalesced = true;
}

-- The pass up to its first await, and the record of it.
unfoldable pub begin_pass : Text → ℕ → ℕ → Service → Service
begin_pass db_address promise now service = record service {
  pinning_sync_operations = suc service.pinning_sync_operations;
  known_databases_by_address =
      remember_known_database_address (some db_address) service.known_databases_by_address;
  sync_in_flight =
      Map.set db_address (record { promise = promise; started_at = now }) service.sync_in_flight;
}

-- The `finally` of the call whose pass has ended.
unfoldable pub end_pass : Text → ℕ → Service → Service
end_pass db_address promise service =
    if is_in_flight (Map.get db_address service.sync_in_flight) promise
    then record service { sync_in_flight = Map.delete db_address service.sync_in_flight }
    else service

-- After the wait of an explicit sync: a record that is still there is dropped.
unfoldable pub drop_record : Text → InFlight → Service → Service
drop_record db_address existing service =
    if is_in_flight (Map.get db_address service.sync_in_flight) existing.promise
    then record service { sync_in_flight = Map.delete db_address service.sync_in_flight }
    else service

-- A pass that runs.
pub record Pass : Type 0 where
  pub address : Text
  pub promise : ℕ

-- A request that waits for the pass in flight.
pub record Waiter : Type 0 where
  pub address : Text
  pub existing : InFlight
  pub require_fresh : Bool

pub record Flights : Type 0 where
  pub service : Service
  pub next_promise : ℕ
  pub passes : List Pass
  pub waiters : List Waiter
  pub answers : List SyncResult

unfoldable pub start_pass : Text → ℕ → Flights → Flights
unfolding begin_pass
start_pass db_address now f = record f {
  service = begin_pass db_address f.next_promise now f.service;
  next_promise = suc f.next_promise;
  passes = record { address = db_address; promise = f.next_promise } ∷ f.passes;
}

unfoldable pub request_as : Admission → Text → ℕ → Flights → Flights
request_as refused db_address now f = record f { answers = empty_result ∷ f.answers }
request_as (waits existing) db_address now f = record f {
  waiters = record { address = db_address; existing = existing; require_fresh = false } ∷ f.waiters;
}
request_as (waits_fresh existing) db_address now f = record f {
  waiters = record { address = db_address; existing = existing; require_fresh = true } ∷ f.waiters;
}
request_as begins db_address now f = start_pass db_address now f

unfoldable pub request : Bool → Text → ℕ → Flights → Flights
unfolding admit request_as
request require_fresh db_address now f =
    request_as (admit require_fresh db_address f.service) db_address now f

-- A waiter goes on: its pass has ended, or its time is over. `rest` are the other waiters.
unfoldable pub wake : Waiter → List Waiter → ℕ → Flights → Flights
unfolding coalesced_result drop_record
wake w rest now f =
    let dropped = record f {
      waiters = rest;
      service = drop_record w.address w.existing f.service;
    } in
    let found = is_in_flight (Map.get w.address f.service.sync_in_flight) w.existing.promise in
    let joined = record f {
      waiters = rest;
      answers =
          coalesced_result (Map.get w.address f.service.pinned_databases_by_address) ∷ f.answers;
    } in
    if w.require_fresh
    then request false w.address now dropped
    else if found
    then joined
    else start_pass w.address now (record f { waiters = rest })

-- An explicit sync whose wait is over before the pass has ended fails, and every waiter fails whose
-- pass ends with an exception, which the promise that it waits for passes on.
abbrev pub give_up : List Waiter → Flights → Flights
give_up rest f = record f { waiters = rest }

unfoldable pub finish : Pass → List Pass → SyncResult → Flights → Flights
unfolding end_pass
finish p rest result f = record f {
  service = end_pass p.address p.promise f.service;
  passes = rest;
  answers = result ∷ f.answers;
}

-- The same where the pass ends with an exception: its request gets no answer.
unfoldable pub break_off : Pass → List Pass → Flights → Flights
unfolding end_pass
break_off p rest f = record f { service = end_pass p.address p.promise f.service; passes = rest }

-- One part of one call. Other operations of the service leave `syncInFlight` as it is; the shutdown
-- may begin at any time, and the proofs may change.
pub data Step : Flights → Flights → Type 0 where
  requests :
      (f : Flights) (require_fresh : Bool) (db_address : Text) (now : ℕ)
      → Step f (request require_fresh db_address now f)
  wakes :
      (f : Flights) (before after : List Waiter) (w : Waiter) (now : ℕ)
      → f.waiters ≡ before ++ w ∷ after
      → Step f (wake w (before ++ after) now f)
  gives_up :
      (f : Flights) (before after : List Waiter) (w : Waiter)
      → f.waiters ≡ before ++ w ∷ after
      → Step f (give_up (before ++ after) f)
  finishes :
      (f : Flights) (before after : List Pass) (p : Pass) (result : SyncResult)
      → f.passes ≡ before ++ p ∷ after
      → Step f (finish p (before ++ after) result f)
  breaks :
      (f : Flights) (before after : List Pass) (p : Pass)
      → f.passes ≡ before ++ p ∷ after
      → Step f (break_off p (before ++ after) f)
  elsewhere :
      (f : Flights) (service : Service)
      → service.sync_in_flight ≡ f.service.sync_in_flight
      → Step f (record f { service = service })

pub data Reach (f : Flights) : Flights → Type 0 where
  here : Reach f f
  next : {g h : Flights} → Reach f g → Step g h → Reach f h
