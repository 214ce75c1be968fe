-- ===== src/Retention.antt =====
-- src/services/database.ts, `openDatabase`, `retainOpenDatabase` and `releaseOpenDatabase`: opens
-- of one address share one `orbitdb.open()`, and the users of an open database are counted. A call
-- is cut where it awaits; the parts of different calls follow one another in any order.
pub mod Laws
mod Tests
use orbitdb_relay.Prelude.{
  ℕ, suc, ◌+◌, ◌-◌, Text, text_eq, Bool, true, false, Option, none, some, List, [], ◌∷◌, ◌++◌, ◌&&◌,
  ◌≡◌, if◌then◌else◌, get_or, leb, ◌==◌,
}
use orbitdb_relay.Prelude.Map
use orbitdb_relay.Service.{Service, Db, InFlight}

-- A call of `retainOpenDatabase` that waits for a promise of `orbitdb.open()`; the owner made it.
pub record Pending : Type 0 where
  pub address : Text
  pub promise : ℕ
  pub owner : Bool

-- A caller that has retained a database and not released it.
pub record Holder : Type 0 where
  pub address : Text
  pub db : Db

-- `openDatabase` up to its await. `promise` is what `orbitdb.open()` would return.
unfoldable pub open_database : Text → ℕ → ℕ → Service → Pending × Service
open_database db_address now promise service = elim (Map.get db_address service.open_in_flight) [
  | some existing ↦
      (record { address = db_address; promise = existing.promise; owner = false }, service)
  | none ↦ (
    record { address = db_address; promise = promise; owner = true },
    record service {
      open_in_flight =
          Map.set db_address (record { promise = promise; started_at = now })
            service.open_in_flight;
    },
  )
]

-- Whether the map holds this promise at the address.
abbrev pub is_in_flight : Option InFlight → ℕ → Bool
is_in_flight none promise = false
is_in_flight (some e) promise = e.promise == promise

-- The `finally` of `openDatabase`: only the owner gets there.
unfoldable pub settle_open : Pending → Service → Service
settle_open p service =
    if p.owner && is_in_flight (Map.get p.address service.open_in_flight) p.promise
    then record service { open_in_flight = Map.delete p.address service.open_in_flight }
    else service

-- `retainOpenDatabase` after its await.
unfoldable pub count_use : Text → Service → Service
count_use db_address service = record service {
  database_use_counts =
      Map.set db_address (get_or (Map.get db_address service.database_use_counts) 0 + 1)
        service.database_use_counts;
}

-- The database that it closes, if it closes one.
unfoldable pub release_open_database : Text → Db → Service → Option Db × Service
release_open_database db_address db service =
    let current = get_or (Map.get db_address service.database_use_counts) 0 in
    if leb current 1
    then (
      some db,
      record service { database_use_counts = Map.delete db_address service.database_use_counts },
    )
    else (
      none,
      record service {
        database_use_counts = Map.set db_address (current - 1) service.database_use_counts;
      },
    )

pub record World : Type 0 where
  pub service : Service
  pub next_promise : ℕ
  pub pending : List Pending
  pub holders : List Holder
  pub closed : List Db

unfoldable pub start_retain : Text → ℕ → World → World
unfolding open_database
start_retain db_address now w =
    let (call, service) = open_database db_address now w.next_promise w.service in
    record w { service = service; next_promise = suc w.next_promise; pending = call ∷ w.pending }

-- A pending call resumes with what its promise gives, an instance or an exception; `rest` are the
-- other pending calls.
unfoldable pub resume_retain : Option Db → Pending → List Pending → World → World
unfolding settle_open count_use
resume_retain opened call rest w =
    let service = settle_open call w.service in
    elim opened [
      | none ↦ record w { service = service; pending = rest }
      | some db ↦ record w {
        service = count_use call.address service;
        pending = rest;
        holders = record { address = call.address; db = db } ∷ w.holders;
      }
    ]

abbrev pub add_closed : Option Db → List Db → List Db
add_closed none closed = closed
add_closed (some db) closed = db ∷ closed

unfoldable pub release : Holder → List Holder → World → World
unfolding release_open_database
release holder rest w =
    let (closes, service) = release_open_database holder.address holder.db w.service in
    record w { service = service; holders = rest; closed = add_closed closes w.closed }

-- One part of one call. `opens` gives what each promise settles with.
pub data Step (opens : ℕ → Option Db) : World → World → Type 0 where
  starts : (w : World) (db_address : Text) (now : ℕ) → Step opens w (start_retain db_address now w)
  resumes :
      (w : World) (before after : List Pending) (call : Pending)
      → w.pending ≡ before ++ call ∷ after
      → Step opens w (resume_retain (opens call.promise) call (before ++ after) w)
  releases :
      (w : World) (before after : List Holder) (holder : Holder)
      → w.holders ≡ before ++ holder ∷ after
      → Step opens w (release holder (before ++ after) w)

pub data Reach (opens : ℕ → Option Db) (w : World) : World → Type 0 where
  here : Reach opens w w
  next : {u v : World} → Reach opens w u → Step opens u v → Reach opens w v
