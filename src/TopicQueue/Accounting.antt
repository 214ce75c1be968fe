-- ===== src/TopicQueue/Accounting.antt =====
-- The counting of tasks of the topic queue in src/services/orbitdb-replication-service.ts, and what
-- a sighting of a topic does to it.
use orbitdb_relay.Prelude.{
  ℕ, ◌+◌, Text, text_eq, text_eq_iff, starts_with, Bool, true, false, Option, none, some, List, [],
  ◌∷◌, ◌++◌, if◌then◌else◌, ltb, ◌≡◌, ◌∙◌, arith, inl, inr, Option-cases, Bool-cases,
}
use orbitdb_relay.Prelude.Map
use orbitdb_relay.Prelude.Map.{Map}
use orbitdb_relay.Prelude.TextSet
use orbitdb_relay.Prelude.TextSet.{TextSet}
use orbitdb_relay.Addresses.{orbitdb_prefix}
use orbitdb_relay.Service.{Service, Tasks}
use orbitdb_relay.Peers.{remember_database_peer}
use orbitdb_relay.TopicQueue.{
  Config, Queue, fetch_manifest_chain_on_first_sight, schedule_orbitdb_topic_sync, take_topic,
}
use orbitdb_relay.TopicQueue.Handlers.{
  Relay, sight, Subscription, handle_subscription, remember_subscriber, handle_subscriptions,
}

abbrev pub count : Text → List Text → ℕ
count t [] = 0
count t (x ∷ xs) = (if text_eq x t then 1 else 0) + count t xs

pub count-append : (t : Text) (xs ys : List Text) → count t (xs ++ ys) ≡ count t xs + count t ys
count-append t [] ys = omega arith
count-append t (x ∷ xs) ys = omega (arith, count-append t xs ys)

abbrev pub outstanding : Text → Tasks Text → ℕ
outstanding t tasks = count t tasks.waiting + count t tasks.running

pub take_topic_lem :
    (t d : Text) (xs rest : List Text)
    → take_topic d xs ≡ some rest
    → count t xs ≡ (if text_eq d t then 1 else 0) + count t rest
unfolding take_topic
take_topic_lem t d [] rest e = cc
take_topic_lem t d (x ∷ xs) rest e = elim (Bool-cases (text_eq x d)) [
  | inl hit ↦ ground (arith, text_eq_iff x d)
  | inr miss ↦ elim (Option-cases (take_topic d xs)) [
    | inl gone ↦ ground arith
    | inr (others, deeper) ↦ ground (arith, take_topic_lem t d xs others deeper)
  ]
]

-- Before the clean-up: a topic is marked as queued exactly while one task for it is outstanding,
-- and has a start time exactly while that task runs. The clean-up leaves no waiting task.
pub record Inv (t : Text) (q : Queue) : Type 0 where
  pub queued :
      q.is_shutting_down ≡ false
      → outstanding t q.sync_queue ≡ (if TextSet.has t q.queued_orbitdb_sync_topics then 1 else 0)
  pub active :
      q.is_shutting_down ≡ false
      → Map.has t q.active_sync_started_at ≡ ltb 0 (count t q.sync_queue.running)
  pub drained :
      q.is_shutting_down ≡ true → (q.sync_queue.waiting ≡ []) × (q.fast_lane_queue.waiting ≡ [])

schedule-Inv :
    (service : Service) (t d : Text) (now : ℕ) (q : Queue)
    → q.is_shutting_down ≡ false
    → Inv t q
    → Inv t (schedule_orbitdb_topic_sync service d now q)
unfolding schedule_orbitdb_topic_sync
schedule-Inv service t d now q up v = ground (
  arith,
  v.queued up,
  v.active up,
  TextSet.has-add t d q.queued_orbitdb_sync_topics,
  text_eq_iff d t,
  count-append t q.sync_queue.waiting (d ∷ []),
)

fetch-Inv :
    (config : Config) (t d : Text) (now : ℕ) (q : Queue)
    → q.is_shutting_down ≡ false
    → Inv t q
    → Inv t (fetch_manifest_chain_on_first_sight config d now q)
unfolding fetch_manifest_chain_on_first_sight
fetch-Inv config t d now q up v = ground (arith, v.queued up, v.active up)

pub fetch_up :
    (config : Config) (d : Text) (now : ℕ) (q : Queue)
    → (fetch_manifest_chain_on_first_sight config d now q).is_shutting_down ≡ q.is_shutting_down
unfolding fetch_manifest_chain_on_first_sight
fetch_up config d now q = ground arith

pub schedule_up :
    (service : Service) (d : Text) (now : ℕ) (q : Queue)
    → (schedule_orbitdb_topic_sync service d now q).is_shutting_down ≡ q.is_shutting_down
unfolding schedule_orbitdb_topic_sync
schedule_up service d now q = ground arith

pub sight-Inv :
    (config : Config) (t d : Text) (now : ℕ) (r : Relay)
    → r.queue.is_shutting_down ≡ false
    → Inv t r.queue
    → Inv t (sight config d now r).queue
unfolding sight
sight-Inv config t d now r up v =
    schedule-Inv r.service t d now _ (fetch_up config d now r.queue ∙ up)
      (fetch-Inv config t d now r.queue up v)

pub sight_up :
    (config : Config) (d : Text) (now : ℕ) (r : Relay)
    → (sight config d now r).queue.is_shutting_down ≡ r.queue.is_shutting_down
unfolding sight
sight_up config d now r = schedule_up r.service d now _ ∙ fetch_up config d now r.queue

handle_subscription-Inv :
    (config : Config) (peer : Option Text) (t : Text) (now : ℕ) (d : Option Text) (u : Bool)
    (r : Relay)
    → r.queue.is_shutting_down ≡ false
    → Inv t r.queue
    → Inv t (handle_subscription config peer now d u r).queue
      × ((handle_subscription config peer now d u r).queue.is_shutting_down ≡ false)
unfolding handle_subscription remember_subscriber
handle_subscription-Inv config peer t now none u r up v = (v, up)
handle_subscription-Inv config peer t now (some d) true r up v =
    elim (Bool-cases (starts_with d orbitdb_prefix)) [
      | inl hit ↦
          rw (hit, handle_subscription)
            (sight-Inv config t d now r up v, sight_up config d now r ∙ up)
      | inr miss ↦ rw (miss, handle_subscription) (v, up)
    ]
handle_subscription-Inv config peer t now (some d) false r up v =
    let r' : Relay = record r { service = remember_database_peer d peer r.service } in
    elim (Bool-cases (starts_with d orbitdb_prefix)) [
      | inl hit ↦
          rw (hit, handle_subscription)
            (sight-Inv config t d now r' up v, sight_up config d now r' ∙ up)
      | inr miss ↦ rw (miss, handle_subscription) (v, up)
    ]

pub handle_subscriptions-Inv :
    (config : Config) (peer : Option Text) (t : Text) (now : ℕ) (ss : List Subscription) (r : Relay)
    → r.queue.is_shutting_down ≡ false
    → Inv t r.queue
    → Inv t (handle_subscriptions config peer now ss r).queue
unfolding handle_subscriptions
handle_subscriptions-Inv config peer t now [] r up v = v
handle_subscriptions-Inv config peer t now (s ∷ ss) r up v =
    let (v', up') = handle_subscription-Inv config peer t now s.topic s.unsubscribes r up v in
    handle_subscriptions-Inv config peer t now ss _ up' v'
