-- ===== src/Lifecycle.antt =====
-- The start and the stop of the replication service: `afterStart`, `beforeStop` and
-- `createPinningHttpHandlers` of the class in src/services/orbitdb-replication-service.ts, and
-- `stop` of src/services/database.ts. What the service holds outside of itself is counted: layers
-- of registrar hooks, sets of pubsub handlers and Helia nodes. A clean-up is taken to do its work,
-- whether or not it throws, and the registrar to have the two methods that the hooks replace.
pub mod Laws
mod Tests
use orbitdb_relay.Prelude.{
  ℕ, suc, ◌+◌, ◌-◌, Text, Bool, true, false, Option, none, some, List, [], ◌∷◌, ◌++◌, ◌||◌, ◌&&◌,
  not, if◌then◌else◌, is_some,
}
use orbitdb_relay.Prelude.Map
use orbitdb_relay.Service.{PinTask, Service, new_service}
use orbitdb_relay.Pinning.{begin_shutdown, clear_pins, settle_pin}
use orbitdb_relay.Watch.{unwatch_database_updates}

-- Each of these tasks of the pin queue ends: `ends` is whether it pins its CID.
unfoldable pub settle_all : (Text → Bool) → List PinTask → Service → Service
settle_all ends [] service = service
settle_all ends (task ∷ tasks) service =
    settle_all ends tasks (settle_pin (ends task.cid) task.cid service)

-- `pinQueue.onIdle()`, of a queue that is paused and has nothing waiting: every task that runs
-- ends. It is taken that each does; the order in which they end is that of the list.
unfoldable pub await_idle : (Text → Bool) → Service → Service
unfolding settle_all
await_idle ends service = settle_all ends service.pin_queue.running service

unfoldable pub unwatch_all : List Text → Service → Service
unfolding unwatch_database_updates
unwatch_all [] service = service
unwatch_all (db_address ∷ addresses) service =
    unwatch_all addresses (unwatch_database_updates db_address service)

-- `stop` of the database service.
unfoldable pub stop_database : (Text → Bool) → Service → Service
unfolding await_idle unwatch_all clear_pins
stop_database ends service =
    let idle = await_idle ends (clear_pins service) in
    record (unwatch_all (Map.keys idle.event_handlers) idle) {
      pinned_open_databases = [];
      database_use_counts = [];
    }

pub record Held : Type 0 where
  pub hooks : ℕ
  pub handlers : ℕ
  pub nodes : ℕ

-- The fields of the class; of those that the model does not look into, whether they are null.
pub record Replication : Type 0 where
  pub started : Bool
  pub libp2p : Bool
  pub ipfs_instance : Bool
  pub database_service : Option Service
  pub cleanup_sync_handlers : Bool
  pub sync_queue_stats : Bool
  pub cleanup_registrar_hooks : Bool
  pub held : Held

-- The constructor of the class.
abbrev pub new_replication : Held → Replication
new_replication held = record {
  started = false;
  libp2p = false;
  ipfs_instance = false;
  database_service = none;
  cleanup_sync_handlers = false;
  sync_queue_stats = false;
  cleanup_registrar_hooks = false;
  held = held;
}

-- How far a start gets: the call that throws, or all the way.
pub data Start : Type 0 where
  helia_throws initialize_throws hooks_throw handlers_throw starts : Start

-- One less where it is there.
abbrev pub less_one : Bool → ℕ → ℕ
less_one there n = if there then n - 1 else n

-- The `catch` of `afterStart`, where the node has started: it calls the clean-up in the field,
-- which a start that fails has not assigned.
unfoldable pub fail_start : Replication → Replication
fail_start r = record r {
  cleanup_registrar_hooks = false;
  held = record (r.held) {
    hooks = less_one r.cleanup_registrar_hooks r.held.hooks;
    nodes = r.held.nodes - 1;
  };
}

abbrev pub with_node : Replication → Replication
with_node r = record r { held = record (r.held) { nodes = suc r.held.nodes } }

abbrev pub with_hooks : Replication → Replication
with_hooks r = record r { held = record (r.held) { hooks = suc r.held.hooks } }

-- The first component says whether the start went through.
unfoldable pub start_as : Start → Replication → Bool × Replication
unfolding fail_start
start_as helia_throws r = (false, r)
start_as initialize_throws r = (false, fail_start (with_node r))
start_as hooks_throw r = (false, fail_start (with_node r))
start_as handlers_throw r = (false, fail_start (with_hooks (with_node r)))
start_as starts r = (
  true,
  record {
    started = true;
    libp2p = true;
    ipfs_instance = true;
    database_service = some new_service;
    cleanup_sync_handlers = true;
    sync_queue_stats = true;
    cleanup_registrar_hooks = true;
    held = record {
      hooks = suc r.held.hooks;
      handlers = suc r.held.handlers;
      nodes = suc r.held.nodes;
    };
  },
)

unfoldable pub after_start : Start → Replication → Bool × Replication
unfolding start_as
after_start start r = if r.started then (true, r) else start_as start r

-- The second component is the database service after its own stop.
unfoldable pub before_stop : (Text → Bool) → Replication → Replication × Option Service
unfolding stop_database
before_stop ends r =
    if not r.started && not (is_some r.database_service) && not r.ipfs_instance
    then (r, none)
    else (
      new_replication (record {
        hooks = less_one r.cleanup_registrar_hooks r.held.hooks;
        handlers = less_one r.cleanup_sync_handlers r.held.handlers;
        nodes = less_one r.ipfs_instance r.held.nodes;
      }),
      elim r.database_service [
        | none ↦ none
        | some service ↦ some (stop_database ends (begin_shutdown service))
      ],
    )

-- `requireDatabaseService`; `none` stands for its exception.
abbrev pub require_database_service : Replication → Option Service
require_database_service r = r.database_service

-- `getStats` of `createPinningHttpHandlers`: `kept` is the database service that was there when the
-- handlers were created, as it is now; `stats` reads it, and `with_queue` adds the statistics of
-- the sync queue.
unfoldable pub get_stats {ℓ} :
    {Stats : Type ℓ} {QueueStats : Type ℓ}
    → (Service → Stats)
    → QueueStats
    → (Stats → QueueStats → Stats)
    → Service
    → Replication
    → Stats
get_stats stats queue_stats with_queue kept r =
    if r.sync_queue_stats then with_queue (stats kept) queue_stats else stats kept

-- What befalls the service: libp2p starts and stops it, and other calls change its database
-- service.
pub data Event : Type 0 where
  tries : Start → Event
  stops : (Text → Bool) → Event
  works : (Service → Service) → Event

unfoldable pub step : Event → Replication → Replication
unfolding after_start before_stop
step (tries start) r = (after_start start r).1
step (stops ends) r = (before_stop ends r).0
step (works change) r = elim r.database_service [
  | none ↦ r
  | some service ↦ record r { database_service = some (change service) }
]

unfoldable pub run : List Event → Replication → Replication
unfolding step
run [] r = r
run (event ∷ events) r = run events (step event r)
