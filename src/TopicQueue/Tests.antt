-- ===== src/TopicQueue/Tests.antt =====
-- Runs of the handlers of src/services/orbitdb-replication-service.ts on concrete events.
use orbitdb_relay.Prelude.{
  ◌+◌, Text, codes, text_eq, starts_with, true, not, ltb, some, List, [], ◌∷◌, ◌≡◌, refl, arith,
}
use orbitdb_relay.Prelude.Map
use orbitdb_relay.Prelude.TextSet
use orbitdb_relay.Peers.{is_held_open}
use orbitdb_relay.TopicQueue.{
  Config, LaneEntry, held, threw, take_topic, next_delay, schedule_orbitdb_topic_sync,
  fetch_manifest_chain_on_first_sight, start_sync, start_fetch, end_fetch, settle_entry, next_entry,
  is_known,
}
use orbitdb_relay.TopicQueue.Handlers.{
  Event, message, sync_starts, sync_ends, fetch_starts, fetch_ends, run, step, on_queue, sight,
  pubsub_message_handler, Relay,
}
use orbitdb_relay.TopicQueue.Accounting.{Inv}
use orbitdb_relay.TopicQueue.Invariant.{run_new-Inv, new_relay}
use orbitdb_relay.TopicQueue.Cooldown.{delay_of, setback-holds_back}
use orbitdb_relay.TopicQueue.LaneRuns.{OnLane}
use orbitdb_relay.TopicQueue.FastLane.{IsFinal, held-IsFinal}

abbrev config : Config
config = record {
  sync_cooldown_ms = 60000;
  sync_max_cooldown_ms = 900000;
  fast_lane_retry_ms = 30000;
}

abbrev topic : Text
topic = codes "/orbitdb/a"

abbrev events : List Event
events =
    message (some topic) 1 ∷ fetch_starts topic ∷ sync_starts topic 2 ∷ fetch_ends true topic 5 ∷ []

run_new-Inv_example : Inv topic (run config events new_relay).queue
run_new-Inv_example = run_new-Inv config events topic

abbrev chain_held : LaneEntry
chain_held = record { first_seen_at = 1; attempts = 1; state = held; settled_at = 5 }

learnt : Map.get topic (run config events new_relay).queue.fast_lane_topics ≡ some chain_held
unfolding run step on_queue pubsub_message_handler sight schedule_orbitdb_topic_sync is_held_open
    fetch_manifest_chain_on_first_sight start_sync start_fetch end_fetch settle_entry take_topic
    next_entry is_known Map.get Map.set TextSet.has TextSet.add text_eq starts_with
learnt = refl

held-IsFinal_example :
    OnLane
      (IsFinal topic chain_held)
      (run config (message (some topic) 9 ∷ []) (run config events new_relay)).queue
held-IsFinal_example =
    held-IsFinal config events (message (some topic) 9 ∷ []) topic chain_held learnt refl

abbrev busy : Relay
busy = run config events new_relay

setback-holds_back_example :
    TextSet.has topic
      (run config
        (sync_ends threw topic 50 ∷ message (some topic) 99 ∷ [])
        busy).queue.queued_orbitdb_sync_topics
    ≡ not (ltb 99 (50 + next_delay config (delay_of topic busy.queue)))
unfolding run step on_queue pubsub_message_handler sight schedule_orbitdb_topic_sync is_held_open
    fetch_manifest_chain_on_first_sight start_sync start_fetch end_fetch settle_entry take_topic
    next_entry is_known Map.get Map.set TextSet.has TextSet.add text_eq starts_with
setback-holds_back_example =
    setback-holds_back config threw topic 50 99 busy [] refl (λ e. absurd (ground (arith, e))) refl
      refl refl
