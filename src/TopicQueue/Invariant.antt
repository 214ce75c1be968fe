-- ===== src/TopicQueue/Invariant.antt =====
-- The book-keeping of the topic queue in src/services/orbitdb-replication-service.ts, over all
-- runs.
use orbitdb_relay.Prelude.{
  ℕ, Text, text_eq_iff, starts_with, Bool, Option, none, some, List, [], ◌∷◌, ◌≡◌, refl, arith, inl,
  inr, Option-cases, Bool-cases,
}
use orbitdb_relay.Prelude.Map
use orbitdb_relay.Prelude.Map.{Map}
use orbitdb_relay.Prelude.TextSet
use orbitdb_relay.Prelude.TextSet.{TextSet}
use orbitdb_relay.Addresses.{orbitdb_prefix}
use orbitdb_relay.Service.{new_service}
use orbitdb_relay.TopicQueue.{
  Config, Queue, Outcome, completed, timed_out, threw, end_fetch, start_fetch,
  ensure_orbitdb_topic_subscribed, start_sync, end_sync, take_topic, new_queue, after_race,
  after_task, release_slot, note_sync_setback,
}
use orbitdb_relay.TopicQueue.Handlers.{
  Relay, pubsub_message_handler, Subscription, subscription_change_handler, cleanup, Event, message,
  subscription_change, sync_starts, subscribes, sync_ends, fetch_starts, fetch_ends, cleans_up,
  service_becomes, on_queue, step, run,
}
use orbitdb_relay.TopicQueue.Accounting.{take_topic_lem, Inv, sight-Inv, handle_subscriptions-Inv}

none_taken : (d : Text) (xs rest : List Text) → xs ≡ [] → take_topic d xs ≡ some rest → ⊥
unfolding take_topic
none_taken d [] rest e h = cc
none_taken d (x ∷ xs) rest e h = cc

start_sync-Inv : (t d : Text) (now : ℕ) (q : Queue) → Inv t q → Inv t (start_sync d now q)
unfolding start_sync
start_sync-Inv t d now q v = elim (Option-cases (take_topic d q.sync_queue.waiting)) [
  | inl gone ↦ rw (gone, start_sync) v
  | inr (rest, found) ↦
      rw (found, start_sync)
        (record {
          queued =
              λ up. ground (arith, v.queued up, take_topic_lem t d q.sync_queue.waiting rest found);
          active = λ up.
              ground
                (arith, v.active up, Map.get-set t d now q.active_sync_started_at, text_eq_iff d t);
          drained = λ down. absurd (none_taken d _ rest (v.drained down).0 found);
        })
]

-- A task that ends gives its slot back: the topic is neither queued nor running any more.
release_slot-Inv :
    (t d : Text) (q : Queue) (rest : List Text)
    → Inv t q
    → take_topic d q.sync_queue.running ≡ some rest
    → Inv t (release_slot d (record q { sync_queue = record (q.sync_queue) { running = rest } }))
unfolding release_slot
release_slot-Inv t d q rest v found =
    let taken = take_topic_lem t d q.sync_queue.running rest found in
    record {
      queued = λ up. ground (
        arith,
        v.queued up,
        taken,
        TextSet.has-delete t d q.queued_orbitdb_sync_topics,
        text_eq_iff d t,
      );
      active = λ up. ground (
        arith,
        v.queued up,
        v.active up,
        taken,
        Map.get-delete t d q.active_sync_started_at,
        text_eq_iff d t,
      );
      drained = v.drained;
    }

end_sync-Inv :
    (config : Config) (outcome : Outcome) (t d : Text) (now : ℕ) (q : Queue)
    → Inv t q
    → Inv t (end_sync config outcome d now q)
unfolding end_sync note_sync_setback
end_sync-Inv config outcome t d now q v = elim (Option-cases (take_topic d q.sync_queue.running)) [
  | inl gone ↦ rw (gone, end_sync) v
  | inr (rest, found) ↦ rw (found, end_sync) (ended outcome (release_slot-Inv t d q rest v found))
]
  where
    ended :
        (o : Outcome) {rest : List Text}
        → Inv t
            (release_slot d (record q { sync_queue = record (q.sync_queue) { running = rest } }))
        → Inv t (
            after_task config o d now (
              release_slot d (
                after_race config o d now
                  (record q { sync_queue = record (q.sync_queue) { running = rest } }))))
    ended completed f = record { queued = f.queued; active = f.active; drained = f.drained }
    ended timed_out f = record { queued = f.queued; active = f.active; drained = f.drained }
    ended threw f = record { queued = f.queued; active = f.active; drained = f.drained }

start_fetch-Inv : (t d : Text) (q : Queue) → Inv t q → Inv t (start_fetch d q)
unfolding start_fetch
start_fetch-Inv t d q v = elim (Option-cases (take_topic d q.fast_lane_queue.waiting)) [
  | inl gone ↦ rw (gone, start_fetch) v
  | inr (rest, found) ↦
      rw (found, start_fetch)
        (record {
          queued = v.queued;
          active = v.active;
          drained = λ down. absurd (none_taken d _ rest (v.drained down).1 found);
        })
]

end_fetch-Inv :
    (ok : Bool) (t d : Text) (now : ℕ) (q : Queue) → Inv t q → Inv t (end_fetch ok d now q)
unfolding end_fetch
end_fetch-Inv ok t d now q v = ground (arith, v.queued, v.active, v.drained)

subscribe-Inv :
    (ok : Bool) (t d : Text) (q : Queue) → Inv t q → Inv t (ensure_orbitdb_topic_subscribed ok d q)
unfolding ensure_orbitdb_topic_subscribed
subscribe-Inv ok t d q v = ground (arith, v.queued, v.active, v.drained)

cleanup-Inv : (t : Text) (q : Queue) → Inv t (cleanup q)
unfolding cleanup
cleanup-Inv t q = record { queued = λ up. cc; active = λ up. cc; drained = λ down. (refl, refl) }

message-Inv :
    (config : Config) (t d : Text) (now : ℕ) (r : Relay)
    → Inv t r.queue
    → Inv t (pubsub_message_handler config (some d) now r).queue
unfolding pubsub_message_handler
message-Inv config t d now r v = elim (Bool-cases r.queue.is_shutting_down) [
  | inl down ↦ simp down v
  | inr up ↦ elim (Bool-cases (starts_with d orbitdb_prefix)) [
    | inl hit ↦ simp (up, hit) (sight-Inv config t d now r up v)
    | inr miss ↦ simp (up, miss) v
  ]
]

change-Inv :
    (config : Config) (peer : Option Text) (t : Text) (now : ℕ) (ss : List Subscription) (r : Relay)
    → Inv t r.queue
    → Inv t (subscription_change_handler config peer now ss r).queue
unfolding subscription_change_handler
change-Inv config peer t now ss r v = elim (Bool-cases r.queue.is_shutting_down) [
  | inl down ↦ simp down v
  | inr up ↦ simp up (handle_subscriptions-Inv config peer t now ss r up v)
]

step-Inv :
    (config : Config) (e : Event) (t : Text) (r : Relay)
    → Inv t r.queue
    → Inv t (step config e r).queue
unfolding step on_queue pubsub_message_handler subscription_change_handler
step-Inv config (message none now) t r v = v
step-Inv config (message (some d) now) t r v = message-Inv config t d now r v
step-Inv config (subscription_change peer ss now) t r v = change-Inv config peer t now ss r v
step-Inv config (sync_starts d now) t r v = start_sync-Inv t d now r.queue v
step-Inv config (subscribes ok d) t r v = subscribe-Inv ok t d r.queue v
step-Inv config (sync_ends outcome d now) t r v = end_sync-Inv config outcome t d now r.queue v
step-Inv config (fetch_starts d) t r v = start_fetch-Inv t d r.queue v
step-Inv config (fetch_ends ok d now) t r v = end_fetch-Inv ok t d now r.queue v
step-Inv config cleans_up t r v = cleanup-Inv t r.queue
step-Inv config (service_becomes service) t r v = v

abbrev pub new_relay : Relay
new_relay = record { service = new_service; queue = new_queue }

new_queue-Inv : (t : Text) → Inv t new_queue
unfolding TextSet.has Map.get
new_queue-Inv t = record { queued = λ up. refl; active = λ up. refl; drained = λ down. cc }

run-Inv :
    (config : Config) (es : List Event) (t : Text) (r : Relay)
    → Inv t r.queue
    → Inv t (run config es r).queue
unfolding run
run-Inv config [] t r v = v
run-Inv config (e ∷ es) t r v = run-Inv config es t (step config e r) (step-Inv config e t r v)

-- Whatever messages, subscription changes, starts and ends of tasks reach the relay, in whatever
-- order, and whatever happens to the database service in between: until the clean-up a topic is
-- marked as queued exactly while a task for it is outstanding, of which there is one at most, and
-- it has a start time exactly while that task holds a slot; after the clean-up neither queue has a
-- waiting task.
pub run_new-Inv :
    (config : Config) (es : List Event) (t : Text) → Inv t (run config es new_relay).queue
run_new-Inv config es t = run-Inv config es t new_relay (new_queue-Inv t)
