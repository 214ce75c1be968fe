-- ===== src/TopicQueue/LaneRuns.antt =====
-- Runs of the relay as the fast lane of src/services/orbitdb-replication-service.ts sees them.
use orbitdb_relay.Prelude.{
  ℕ, Text, Bool, true, false, Option, none, some, List, [], ◌∷◌, arith, inl, inr, Bool-cases,
}
use orbitdb_relay.Prelude.Map.{Map}
use orbitdb_relay.Service.{Tasks}
use orbitdb_relay.TopicQueue.{
  Config, Queue, LaneEntry, Outcome, fetch_manifest_chain_on_first_sight, end_fetch, start_fetch,
  ensure_orbitdb_topic_subscribed, schedule_orbitdb_topic_sync, start_sync, end_sync, after_race,
  after_task, release_slot, note_sync_setback,
}
use orbitdb_relay.TopicQueue.Handlers.{
  Relay, sight, pubsub_message_handler, Subscription, handle_subscription, remember_subscriber,
  handle_subscriptions, subscription_change_handler, cleanup, Event, message, subscription_change,
  sync_starts, subscribes, sync_ends, fetch_starts, fetch_ends, cleans_up, service_becomes,
  on_queue, step, run,
}

abbrev pub LanePredicate : Type 1
LanePredicate = Tasks Text → Map LaneEntry → Type 0

abbrev pub OnLane : LanePredicate → Queue → Type 0
OnLane P q = P q.fast_lane_queue q.fast_lane_topics

-- What the fast lane's own operations keep, a run of the relay keeps.
module _ (P : LanePredicate)
    (fetch : (config : Config) (d : Text) (now : ℕ) (q : Queue)
      → OnLane P q
      → OnLane P (fetch_manifest_chain_on_first_sight config d now q))
    (starts : (d : Text) (q : Queue) → OnLane P q → OnLane P (start_fetch d q))
    (ends : (ok : Bool) (d : Text) (now : ℕ) (q : Queue)
      → OnLane P q
      → OnLane P (end_fetch ok d now q))
    (drops : (q : Queue) → OnLane P q → OnLane P (cleanup q)) where
  sight-OnLane :
      (config : Config) (d : Text) (now : ℕ) (r : Relay)
      → OnLane P r.queue
      → OnLane P (sight config d now r).queue
  unfolding sight schedule_orbitdb_topic_sync
  sight-OnLane config d now r p = let p' = fetch config d now r.queue p in ground (arith, p')

  message-OnLane :
      (config : Config) (d : Option Text) (now : ℕ) (r : Relay)
      → OnLane P r.queue
      → OnLane P (pubsub_message_handler config d now r).queue
  unfolding pubsub_message_handler
  message-OnLane config none now r p = p
  message-OnLane config (some d) now r p =
      let p' = sight-OnLane config d now r p in ground (arith, p')

  subscription-OnLane :
      (config : Config) (peer d : Option Text) (now : ℕ) (u : Bool) (r : Relay)
      → OnLane P r.queue
      → OnLane P (handle_subscription config peer now d u r).queue
  unfolding handle_subscription remember_subscriber
  subscription-OnLane config peer none now u r p = p
  subscription-OnLane config peer (some d) now true r p =
      let p' = sight-OnLane config d now r p in ground (arith, p')
  subscription-OnLane config peer (some d) now false r p =
      let p' = sight-OnLane config d now (remember_subscriber peer d false r) p in
      ground (arith, p')

  subscriptions-OnLane :
      (config : Config) (peer : Option Text) (now : ℕ) (ss : List Subscription) (r : Relay)
      → OnLane P r.queue
      → OnLane P (handle_subscriptions config peer now ss r).queue
  unfolding handle_subscriptions
  subscriptions-OnLane config peer now [] r p = p
  subscriptions-OnLane config peer now (s ∷ ss) r p =
      subscriptions-OnLane config peer now ss _
        (subscription-OnLane config peer s.topic now s.unsubscribes r p)

  end_sync-OnLane :
      (config : Config) (o : Outcome) (d : Text) (now : ℕ) (q : Queue)
      → OnLane P q
      → OnLane P (end_sync config o d now q)
  unfolding end_sync after_race after_task release_slot note_sync_setback
  end_sync-OnLane config o d now q p = ground arith

  step-OnLane :
      (config : Config) (e : Event) (r : Relay)
      → OnLane P r.queue
      → OnLane P (step config e r).queue
  unfolding step on_queue subscription_change_handler start_sync ensure_orbitdb_topic_subscribed
  step-OnLane config (message d now) r p = message-OnLane config d now r p
  step-OnLane config (subscription_change peer ss now) r p =
      elim (Bool-cases r.queue.is_shutting_down) [
        | inl down ↦ simp down p
        | inr up ↦ simp up (subscriptions-OnLane config peer now ss r p)
      ]
  step-OnLane config (sync_starts d now) r p = ground arith
  step-OnLane config (subscribes ok d) r p = ground arith
  step-OnLane config (sync_ends o d now) r p = end_sync-OnLane config o d now r.queue p
  step-OnLane config (fetch_starts d) r p = starts d r.queue p
  step-OnLane config (fetch_ends ok d now) r p = ends ok d now r.queue p
  step-OnLane config cleans_up r p = drops r.queue p
  step-OnLane config (service_becomes service) r p = p

  pub run-OnLane :
      (config : Config) (es : List Event) (r : Relay)
      → OnLane P r.queue
      → OnLane P (run config es r).queue
  unfolding run
  run-OnLane config [] r p = p
  run-OnLane config (e ∷ es) r p = run-OnLane config es (step config e r) (step-OnLane config e r p)
