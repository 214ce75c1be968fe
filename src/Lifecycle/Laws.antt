-- ===== src/Lifecycle/Laws.antt =====
-- Theorems about the starts and stops of the replication service and of its database service.
use orbitdb_relay.Prelude.{
  ℕ, ◌+◌, Text, text_eq_refl, Bool, true, false, some, List, [], ◌∷◌, ◌&&◌, not, if◌then◌else◌,
  is_some, ◌≡◌, refl, arith,
}
use orbitdb_relay.Prelude.Map
use orbitdb_relay.Prelude.Map.{Map}
use orbitdb_relay.Prelude.TextSet
use orbitdb_relay.Service.{PinTask, Service, Db}
use orbitdb_relay.Pinning.{clear_pins, take_task, settle_pin}
use orbitdb_relay.Watch.{unwatch_database_updates}
use orbitdb_relay.Lifecycle.{
  settle_all, await_idle, unwatch_all, stop_database, Replication, new_replication, helia_throws,
  initialize_throws, hooks_throw, handlers_throw, starts, Event, tries, stops, works, step, run,
}

abbrev pub one_if : Bool → ℕ
one_if b = if b then 1 else 0

-- Whether the event is a start that fails behind the installation of the hooks.
abbrev pub loses_hooks : Event → Bool → ℕ
loses_hooks (tries handlers_throw) false = 1
loses_hooks _ started = 0

unfoldable pub lost_hooks : List Event → Replication → ℕ
unfolding step
lost_hooks [] r = 0
lost_hooks (event ∷ events) r = loses_hooks event r.started + lost_hooks events (step event r)

-- Every field agrees with `started`, and so does what is held, beside `n` layers of hooks.
abbrev pub Agrees : ℕ → Replication → Type 0
Agrees n r =
    (is_some r.database_service ≡ r.started)
    × (r.ipfs_instance ≡ r.started)
    × (r.cleanup_sync_handlers ≡ r.started)
    × (r.cleanup_registrar_hooks ≡ r.started)
    × (r.held.hooks ≡ n + one_if r.started)
    × (r.held.handlers ≡ one_if r.started)
    × (r.held.nodes ≡ one_if r.started)

step-Agrees :
    (event : Event) (n : ℕ) (r : Replication)
    → Agrees n r
    → Agrees (n + loses_hooks event r.started) (step event r)
unfolding step
step-Agrees (tries helia_throws) n r h = ground arith
step-Agrees (tries initialize_throws) n r h = ground arith
step-Agrees (tries hooks_throw) n r h = ground arith
step-Agrees (tries handlers_throw) n r h = ground arith
step-Agrees (tries starts) n r h = ground arith
step-Agrees (stops ends) n r h = ground arith
step-Agrees (works change) n r h = ground arith

run-Agrees :
    (events : List Event) (n : ℕ) (r : Replication)
    → Agrees n r
    → Agrees (n + lost_hooks events r) (run events r)
unfolding run lost_hooks
run-Agrees [] n r h = ground arith
run-Agrees (event ∷ events) n r h = ground (
  arith,
  run-Agrees events (n + loses_hooks event r.started) (step event r) (step-Agrees event n r h),
)

abbrev pub nothing : Replication
nothing = new_replication (record { hooks = 0; handlers = 0; nodes = 0 })

-- However libp2p starts and stops a new service and whatever calls do in between, it holds one set
-- of pubsub handlers and one node while it is started and none while it is not. Of hooks it holds
-- one layer while it is started, and one more for each start that failed after it had installed
-- them.
pub run_new-held :
    (events : List Event)
    → ((run events nothing).held.hooks
        ≡ lost_hooks events nothing + one_if (run events nothing).started)
      × ((run events nothing).held.handlers ≡ one_if (run events nothing).started)
      × ((run events nothing).held.nodes ≡ one_if (run events nothing).started)
run_new-held events =
    let (a, b, c, d, hooks, handlers, nodes) =
      run-Agrees events 0 nothing (refl, refl, refl, refl, refl, refl, refl) in
    (omega (arith, hooks), handlers, nodes)

settle_pin-keeps :
    (pinned : Bool) (c : Text) (service : Service)
    → ((settle_pin pinned c service).pin_queue.waiting ≡ service.pin_queue.waiting)
      × ((settle_pin pinned c service).is_shutting_down ≡ service.is_shutting_down)
      × ((settle_pin pinned c service).event_handlers ≡ service.event_handlers)
      × ((settle_pin pinned c service).update_timers ≡ service.update_timers)
unfolding settle_pin
settle_pin-keeps pinned c service = ground arith

settle_all-keeps :
    (ends : Text → Bool) (tasks : List PinTask) (service : Service)
    → ((settle_all ends tasks service).pin_queue.waiting ≡ service.pin_queue.waiting)
      × ((settle_all ends tasks service).is_shutting_down ≡ service.is_shutting_down)
      × ((settle_all ends tasks service).event_handlers ≡ service.event_handlers)
      × ((settle_all ends tasks service).update_timers ≡ service.update_timers)
unfolding settle_all
settle_all-keeps ends [] service = (refl, refl, refl, refl)
settle_all-keeps ends (task ∷ tasks) service = ground (
  arith,
  settle_pin-keeps (ends task.cid) task.cid service,
  settle_all-keeps ends tasks (settle_pin (ends task.cid) task.cid service),
)

take_task-first :
    (task : PinTask) (tasks : List PinTask) → take_task task.cid (task ∷ tasks) ≡ some (task, tasks)
unfolding take_task
take_task-first task tasks = rw (text_eq_refl task.cid) refl

settle_pin-running :
    (pinned : Bool) (task : PinTask) (tasks : List PinTask) (service : Service)
    → service.pin_queue.running ≡ task ∷ tasks
    → (settle_pin pinned task.cid service).pin_queue.running ≡ tasks
unfolding settle_pin
settle_pin-running pinned task tasks service e = ground (arith, e, take_task-first task tasks)

-- When each task that runs has ended, none runs.
settle_all-drains :
    (ends : Text → Bool) (tasks : List PinTask) (service : Service)
    → service.pin_queue.running ≡ tasks
    → (settle_all ends tasks service).pin_queue.running ≡ []
unfolding settle_all
settle_all-drains ends [] service e = e
settle_all-drains ends (task ∷ tasks) service e =
    settle_all-drains ends tasks (settle_pin (ends task.cid) task.cid service)
      (settle_pin-running (ends task.cid) task tasks service e)

map_empty : (m : Map Db) → ((k : Text) → Map.has k m ≡ false) → m ≡ []
unfolding Map.get
map_empty [] h = refl
map_empty ((k, v) ∷ m) h =
    let none_there = h k in absurd (ground (arith, none_there, text_eq_refl k))

unwatch_all-has :
    (a : Text) (addresses : List Text) (service : Service)
    → (Map.has a (unwatch_all addresses service).event_handlers
        ≡ (Map.has a service.event_handlers && not (TextSet.has a addresses)))
      × (TextSet.has a (unwatch_all addresses service).update_timers
          ≡ (TextSet.has a service.update_timers && not (TextSet.has a addresses)))
      × ((unwatch_all addresses service).pin_queue ≡ service.pin_queue)
      × ((unwatch_all addresses service).is_shutting_down ≡ service.is_shutting_down)
unfolding unwatch_all unwatch_database_updates TextSet.has
unwatch_all-has a [] service = ground arith
unwatch_all-has a (x ∷ xs) service = ground (
  arith,
  unwatch_all-has a xs (unwatch_database_updates x service),
  Map.get-delete a x service.event_handlers,
  TextSet.has-delete a x service.update_timers,
)

abbrev pub IsStopped : Service → Service → Type 0
IsStopped before after =
    (after.event_handlers ≡ [])
    × (after.pinned_open_databases ≡ [])
    × (after.database_use_counts ≡ [])
    × (after.pin_queue.waiting ≡ [])
    × (after.pin_queue.running ≡ [])
    × (after.is_shutting_down ≡ true)
    × ((a : Text)
        → TextSet.has a after.update_timers
          ≡ (TextSet.has a before.update_timers && not (Map.has a before.event_handlers)))

-- If every pin that runs ends, `stop` leaves a database service that is shutting down, holds no
-- database open, listens on none, has nothing waiting on its pin queue and nothing running, and of
-- whose batch timers only those of databases without a listener remain.
pub stop_database-IsStopped :
    (ends : Text → Bool) (service : Service) → IsStopped service (stop_database ends service)
unfolding stop_database clear_pins await_idle
stop_database-IsStopped ends service =
    let cleared = clear_pins service in
    let (waiting, closing, handlers, timers) =
      settle_all-keeps ends cleared.pin_queue.running cleared in
    let running = settle_all-drains ends cleared.pin_queue.running cleared refl in
    let idle = await_idle ends (clear_pins service) in
    let watched = Map.keys idle.event_handlers in
    (
      map_empty (unwatch_all watched idle).event_handlers
          (λ k. ground (arith, unwatch_all-has k watched idle, Map.has-keys k idle.event_handlers)),
      refl,
      refl,
      ground (arith, unwatch_all-has [] watched idle, waiting),
      ground (arith, unwatch_all-has [] watched idle, running),
      ground (arith, unwatch_all-has [] watched idle, closing),
      λ a. ground (
        arith,
        unwatch_all-has a watched idle,
        Map.has-keys a idle.event_handlers,
        timers,
        handlers,
      ),
    )
