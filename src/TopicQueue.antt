-- ===== src/TopicQueue.antt =====
-- src/services/orbitdb-replication-service.ts, `setupOrbitdbReplicationHandlers`: the state of the
-- handlers, the queue of topic syncs with its back-off, and the fast lane. A task is cut where it
-- awaits. A fast-lane task changes the record of its topic in the map: it is the record that the
-- task was made with, since another is made only when that one has settled.
pub mod Accounting
pub mod LaneRuns
pub mod Handlers
pub mod Cooldown
mod Tests
pub mod Invariant
pub mod FastLane
use orbitdb_relay.Prelude.{
  ℕ, suc, ◌+◌, ◌-◌, ◌*◌, min, Text, text_eq, starts_with, Bool, true, false, Option, none, some,
  List, [], ◌∷◌, ◌++◌, ◌&&◌, ◌||◌, not, if◌then◌else◌, get_or, ltb, length,
}
use orbitdb_relay.Prelude.Map
use orbitdb_relay.Prelude.Map.{Map}
use orbitdb_relay.Prelude.TextSet
use orbitdb_relay.Prelude.TextSet.{TextSet}
use orbitdb_relay.Addresses.{orbitdb_prefix}
use orbitdb_relay.Service.{Service, Tasks}
use orbitdb_relay.Peers.{is_held_open}

-- The settings that the handlers read once, when they are set up.
pub record Config : Type 0 where
  pub sync_cooldown_ms : ℕ
  pub sync_max_cooldown_ms : ℕ
  pub fast_lane_retry_ms : ℕ

pub record Backoff : Type 0 where
  pub not_before : ℕ
  pub delay_ms : ℕ

pub data LaneState : Type 0 where
  pending held failed : LaneState

pub record LaneEntry : Type 0 where
  pub first_seen_at : ℕ
  pub attempts : ℕ
  pub state : LaneState
  pub settled_at : ℕ

pub record Queue : Type 0 where
  pub sync_queue : Tasks Text
  pub subscribed_orbitdb_topics : TextSet
  pub queued_orbitdb_sync_topics : TextSet
  pub active_sync_started_at : Map ℕ
  pub sync_retry_backoff : Map Backoff
  pub fast_lane_queue : Tasks Text
  pub fast_lane_topics : Map LaneEntry
  pub is_shutting_down : Bool
  pub timed_out_syncs : ℕ

abbrev pub new_queue : Queue
new_queue = record {
  sync_queue = record { waiting = []; running = [] };
  subscribed_orbitdb_topics = [];
  queued_orbitdb_sync_topics = [];
  active_sync_started_at = [];
  sync_retry_backoff = [];
  fast_lane_queue = record { waiting = []; running = [] };
  fast_lane_topics = [];
  is_shutting_down = false;
  timed_out_syncs = 0;
}

-- Whether the fast lane leaves a topic alone: its chain is being fetched, or held, or was tried
-- less than `fastLaneRetryMs` ago.
unfoldable pub is_known_topic : Config → ℕ → LaneEntry → Bool
is_known_topic config now known = elim known.state [
  | failed ↦ ltb now (known.settled_at + config.fast_lane_retry_ms)
  | _ ↦ true
]

unfoldable pub next_entry : Option LaneEntry → ℕ → LaneEntry
next_entry none now = record { first_seen_at = now; attempts = 1; state = pending; settled_at = 0 }
next_entry (some known) now = record {
  first_seen_at = known.first_seen_at;
  attempts = known.attempts + 1;
  state = pending;
  settled_at = 0;
}

abbrev pub add_task : Text → Tasks Text → Tasks Text
add_task topic tasks = record tasks { waiting = tasks.waiting ++ topic ∷ [] }

unfoldable pub is_known : Config → ℕ → Option LaneEntry → Bool
unfolding is_known_topic
is_known config now none = false
is_known config now (some known) = is_known_topic config now known

unfoldable pub fetch_manifest_chain_on_first_sight : Config → Text → ℕ → Queue → Queue
unfolding is_known next_entry
fetch_manifest_chain_on_first_sight config topic now q =
    let known = Map.get topic q.fast_lane_topics in
    if not (starts_with topic orbitdb_prefix) || is_known config now known then q else record q {
      fast_lane_topics = Map.set topic (next_entry known now) q.fast_lane_topics;
      fast_lane_queue = add_task topic q.fast_lane_queue;
    }

-- `entry.state = …; entry.settledAt = Date.now()`
unfoldable pub settle_entry : LaneState → Text → ℕ → Map LaneEntry → Map LaneEntry
settle_entry state topic now topics = elim (Map.get topic topics) [
  | none ↦ topics
  | some entry ↦ Map.set topic (record entry { state = state; settled_at = now }) topics
]

-- The first task for a topic is taken out; `none` if there is none.
unfoldable pub take_topic : Text → List Text → Option (List Text)
take_topic topic [] = none
take_topic topic (t ∷ ts) =
    if text_eq t topic
    then some ts
    else elim (take_topic topic ts) [ none ↦ none | some rest ↦ some (t ∷ rest) ]

-- A fast-lane task ends: `held` says what `fetchManifestChain` returned, false also for an
-- exception, which the `catch` treats as a failure.
unfoldable pub end_fetch : Bool → Text → ℕ → Queue → Queue
unfolding settle_entry
end_fetch is_held topic now q = elim (take_topic topic q.fast_lane_queue.running) [
  | none ↦ q
  | some rest ↦ record q {
    fast_lane_queue = record (q.fast_lane_queue) { running = rest };
    fast_lane_topics = settle_entry (if is_held then held else failed) topic now q.fast_lane_topics;
  }
]

-- A fast-lane task starts; in a shutdown it returns at once.
unfoldable pub start_fetch : Text → Queue → Queue
start_fetch topic q = elim (take_topic topic q.fast_lane_queue.waiting) [
  | none ↦ q
  | some rest ↦ record q {
    fast_lane_queue = record {
      waiting = rest;
      running =
          if q.is_shutting_down
          then q.fast_lane_queue.running
          else topic ∷ q.fast_lane_queue.running;
    };
  }
]

-- `ensureOrbitdbTopicSubscribed`: `subscribes` says whether `pubsub.subscribe` came back in time.
unfoldable pub ensure_orbitdb_topic_subscribed : Bool → Text → Queue → Queue
ensure_orbitdb_topic_subscribed subscribes topic q =
    if not (starts_with topic orbitdb_prefix)
      || TextSet.has topic q.subscribed_orbitdb_topics
      || not subscribes
    then q
    else record q { subscribed_orbitdb_topics = TextSet.add topic q.subscribed_orbitdb_topics }

abbrev pub previous_delay : Option Backoff → ℕ
previous_delay none = 0
previous_delay (some b) = b.delay_ms

unfoldable pub next_delay : Config → ℕ → ℕ
next_delay config previous =
    min (if ltb 0 previous then previous * 2 else config.sync_cooldown_ms)
      config.sync_max_cooldown_ms

unfoldable pub note_sync_setback : Config → Text → ℕ → Queue → Queue
unfolding next_delay
note_sync_setback config topic now q =
    let delay = next_delay config (previous_delay (Map.get topic q.sync_retry_backoff)) in
    record q {
      sync_retry_backoff =
          Map.set topic (record { not_before = now + delay; delay_ms = delay })
            q.sync_retry_backoff;
    }

abbrev pub is_held_back : ℕ → Option Backoff → Bool
is_held_back now none = false
is_held_back now (some b) = ltb now b.not_before

unfoldable pub schedule_orbitdb_topic_sync : Service → Text → ℕ → Queue → Queue
unfolding is_held_open
schedule_orbitdb_topic_sync service topic now q =
    if not (starts_with topic orbitdb_prefix) || TextSet.has topic q.queued_orbitdb_sync_topics
    then q
    else if is_held_open service topic
    then q
    else if is_held_back now (Map.get topic q.sync_retry_backoff)
    then q
    else record q {
      queued_orbitdb_sync_topics = TextSet.add topic q.queued_orbitdb_sync_topics;
      sync_queue = add_task topic q.sync_queue;
    }

-- The queue gives a waiting topic a slot.
unfoldable pub start_sync : Text → ℕ → Queue → Queue
start_sync topic now q = elim (take_topic topic q.sync_queue.waiting) [
  | none ↦ q
  | some rest ↦ record q {
    sync_queue = record { waiting = rest; running = topic ∷ q.sync_queue.running };
    active_sync_started_at = Map.set topic now q.active_sync_started_at;
  }
]

-- How the race of `runTopicSyncWithTimeout` ends.
pub data Outcome : Type 0 where
  completed timed_out threw : Outcome

-- What the task does with the outcome before its `finally`.
unfoldable pub after_race : Config → Outcome → Text → ℕ → Queue → Queue
unfolding note_sync_setback
after_race config completed topic now q = record q {
  sync_retry_backoff = Map.delete topic q.sync_retry_backoff;
}
after_race config timed_out topic now q =
    note_sync_setback config topic now (record q { timed_out_syncs = suc q.timed_out_syncs })
after_race config threw topic now q = q

-- The `finally` of the task.
unfoldable pub release_slot : Text → Queue → Queue
release_slot topic q = record q {
  active_sync_started_at = Map.delete topic q.active_sync_started_at;
  queued_orbitdb_sync_topics = TextSet.delete topic q.queued_orbitdb_sync_topics;
}

-- The `catch` behind the task.
unfoldable pub after_task : Config → Outcome → Text → ℕ → Queue → Queue
unfolding note_sync_setback
after_task config threw topic now q = note_sync_setback config topic now q
after_task config _ topic now q = q

unfoldable pub end_sync : Config → Outcome → Text → ℕ → Queue → Queue
unfolding after_race release_slot after_task
end_sync config outcome topic now q = elim (take_topic topic q.sync_queue.running) [
  | none ↦ q
  | some rest ↦ after_task config outcome topic now (
      release_slot topic (
        after_race config outcome topic now
          (record q { sync_queue = record (q.sync_queue) { running = rest } })))
]
