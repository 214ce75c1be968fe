-- ===== src/TopicQueue/Handlers.antt =====
-- src/services/orbitdb-replication-service.ts: the pubsub handlers, the clean-up, the statistics,
-- and runs of the relay as sequences of events. The database service may change in any way between
-- them.
use orbitdb_relay.Prelude.{
  ℕ, suc, ◌-◌, Text, starts_with, Bool, true, false, Option, none, some, List, [], ◌∷◌,
  if◌then◌else◌, ltb, leb, length,
}
use orbitdb_relay.Prelude.Map.{Map}
use orbitdb_relay.Addresses.{orbitdb_prefix}
use orbitdb_relay.Service.{Service}
use orbitdb_relay.Peers.{remember_database_peer}
use orbitdb_relay.TopicQueue.{
  Config, Backoff, Queue, Outcome, fetch_manifest_chain_on_first_sight, end_fetch, start_fetch,
  ensure_orbitdb_topic_subscribed, schedule_orbitdb_topic_sync, start_sync, end_sync,
}

pub record Relay : Type 0 where
  pub service : Service
  pub queue : Queue

-- What both handlers do with a topic that names a database.
unfoldable pub sight : Config → Text → ℕ → Relay → Relay
sight config topic now r = record r {
  queue =
      schedule_orbitdb_topic_sync r.service topic now
        (fetch_manifest_chain_on_first_sight config topic now r.queue);
}

unfoldable pub pubsub_message_handler : Config → Option Text → ℕ → Relay → Relay
unfolding sight
pubsub_message_handler config none now r = r
pubsub_message_handler config (some topic) now r =
    if r.queue.is_shutting_down
    then r
    else if starts_with topic orbitdb_prefix
    then sight config topic now r
    else r

-- One entry of `event.detail.subscriptions`; `unsubscribes` is `subscribe === false`.
pub record Subscription : Type 0 where
  pub topic : Option Text
  pub unsubscribes : Bool

-- The peer is known if the event names it.
unfoldable pub remember_subscriber : Option Text → Text → Bool → Relay → Relay
remember_subscriber peer topic true r = r
remember_subscriber peer topic false r = record r {
  service = remember_database_peer topic peer r.service;
}

unfoldable pub handle_subscription : Config → Option Text → ℕ → Option Text → Bool → Relay → Relay
unfolding sight remember_subscriber
handle_subscription config peer now none unsubscribes r = r
handle_subscription config peer now (some topic) unsubscribes r =
    if starts_with topic orbitdb_prefix
    then sight config topic now (remember_subscriber peer topic unsubscribes r)
    else r

unfoldable pub handle_subscriptions : Config → Option Text → ℕ → List Subscription → Relay → Relay
unfolding handle_subscription
handle_subscriptions config peer now [] r = r
handle_subscriptions config peer now (s ∷ ss) r =
    handle_subscriptions config peer now ss
      (handle_subscription config peer now s.topic s.unsubscribes r)

unfoldable pub subscription_change_handler :
    Config → Option Text → ℕ → List Subscription → Relay → Relay
unfolding handle_subscriptions
subscription_change_handler config peer now subscriptions r =
    if r.queue.is_shutting_down then r else handle_subscriptions config peer now subscriptions r

-- `cleanup` up to its await. What waits in either queue is dropped.
unfoldable pub cleanup : Queue → Queue
cleanup q = record q {
  is_shutting_down = true;
  sync_queue = record (q.sync_queue) { waiting = [] };
  fast_lane_queue = record (q.fast_lane_queue) { waiting = [] };
  queued_orbitdb_sync_topics = [];
  active_sync_started_at = [];
}

pub data Event : Type 0 where
  message : Option Text → ℕ → Event
  subscription_change : Option Text → List Subscription → ℕ → Event
  sync_starts : Text → ℕ → Event
  subscribes : Bool → Text → Event
  sync_ends : Outcome → Text → ℕ → Event
  fetch_starts : Text → Event
  fetch_ends : Bool → Text → ℕ → Event
  cleans_up : Event
  service_becomes : Service → Event

unfoldable pub on_queue : (Queue → Queue) → Relay → Relay
on_queue f r = record r { queue = f r.queue }

unfoldable pub step : Config → Event → Relay → Relay
unfolding on_queue
step config (message topic now) r = pubsub_message_handler config topic now r
step config (subscription_change peer ss now) r = subscription_change_handler config peer now ss r
step config (sync_starts topic now) r = on_queue (start_sync topic now) r
step config (subscribes ok topic) r = on_queue (ensure_orbitdb_topic_subscribed ok topic) r
step config (sync_ends outcome topic now) r = on_queue (end_sync config outcome topic now) r
step config (fetch_starts topic) r = on_queue (start_fetch topic) r
step config (fetch_ends ok topic now) r = on_queue (end_fetch ok topic now) r
step config cleans_up r = on_queue cleanup r
step config (service_becomes service) r = record r { service = service }

unfoldable pub run : Config → List Event → Relay → Relay
run config [] r = r
run config (e ∷ es) r = run config es (step config e r)

-- `OrbitdbSyncQueueStats`
pub record Stats : Type 0 where
  pub waiting : ℕ
  pub active : ℕ
  pub active_topics : List (Text × ℕ)
  pub queued_topics : ℕ
  pub cooldown_topics : ℕ
  pub timed_out_syncs : ℕ

unfoldable pub count_cooldowns : ℕ → Map Backoff → ℕ
count_cooldowns now [] = 0
count_cooldowns now ((topic, b) ∷ bs) =
    let rest = count_cooldowns now bs in if ltb now b.not_before then suc rest else rest

-- Longest first; equal times keep their order.
unfoldable pub insert_by_time : Text × ℕ → List (Text × ℕ) → List (Text × ℕ)
insert_by_time x [] = x ∷ []
insert_by_time x (y ∷ ys) = if leb y.1 x.1 then x ∷ y ∷ ys else y ∷ insert_by_time x ys

unfoldable pub running_times : ℕ → Map ℕ → List (Text × ℕ)
unfolding insert_by_time
running_times now [] = []
running_times now ((topic, started_at) ∷ ts) =
    insert_by_time (topic, now - started_at) (running_times now ts)

unfoldable pub get_queue_stats : ℕ → Queue → Stats
unfolding count_cooldowns running_times
get_queue_stats now q = record {
  waiting = length q.sync_queue.waiting;
  active = length q.sync_queue.running;
  active_topics = running_times now q.active_sync_started_at;
  queued_topics = length q.queued_orbitdb_sync_topics;
  cooldown_topics = count_cooldowns now q.sync_retry_backoff;
  timed_out_syncs = q.timed_out_syncs;
}
