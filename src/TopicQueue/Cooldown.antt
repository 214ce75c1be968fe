-- ===== src/TopicQueue/Cooldown.antt =====
-- Theorems about the back-off of topic syncs in src/services/orbitdb-replication-service.ts.
use Prim.Native.Nat.{◌^◌}
use native.Mathlib.Nat.{pow-suc, mul_assoc}
use orbitdb_relay.Prelude.{
  ℕ, zero, suc, ◌+◌, ◌*◌, ◌≤◌, min, Text, text_eq_refl, starts_with, true, false, none, some, List,
  [], ◌∷◌, not, if◌then◌else◌, ltb, length, ◌≡◌, ◌≢◌, refl, ◌∙◌, ap, sym, arith,
}
use orbitdb_relay.Prelude.Map
use orbitdb_relay.Prelude.Map.{Map}
use orbitdb_relay.Prelude.TextSet
use orbitdb_relay.Prelude.TextSet.{TextSet}
use orbitdb_relay.Addresses.{orbitdb_prefix}
use orbitdb_relay.Peers.{is_held_open}
use orbitdb_relay.TopicQueue.{
  Config, Queue, Outcome, completed, timed_out, threw, schedule_orbitdb_topic_sync, end_sync,
  take_topic, fetch_manifest_chain_on_first_sight, after_race, after_task, release_slot,
  note_sync_setback, next_delay, previous_delay, is_held_back,
}
use orbitdb_relay.TopicQueue.Handlers.{
  Relay, pubsub_message_handler, sight, run, step, on_queue, sync_ends, message,
}

abbrev pub delay_of : Text → Queue → ℕ
delay_of topic q = previous_delay (Map.get topic q.sync_retry_backoff)

-- Setbacks of one topic, one after another, at the given times.
unfoldable pub setbacks : Config → Text → List ℕ → Queue → Queue
setbacks config topic [] q = q
setbacks config topic (now ∷ times) q =
    setbacks config topic times (note_sync_setback config topic now q)

setback_delay :
    (config : Config) (topic : Text) (now : ℕ) (q : Queue)
    → delay_of topic (note_sync_setback config topic now q) ≡ next_delay config (delay_of topic q)
unfolding note_sync_setback
setback_delay config topic now q =
    let delay = next_delay config (previous_delay (Map.get topic q.sync_retry_backoff)) in
    rw
      (Map.get-set_self topic (record { not_before = now + delay; delay_ms = delay })
        q.sync_retry_backoff)
      refl

le-doubled : (c k : ℕ) → c ≤ c * 2 ^ k
le-doubled c zero = omega arith
le-doubled c (suc k) = grind (arith, le-doubled c k, pow-suc)

doubled_once :
    (c m x : ℕ) → c ≤ x → min (if ltb 0 (min x m) then min x m * 2 else c) m ≡ min (x * 2) m
doubled_once c m x p = ground arith

next_delay_doubles :
    (config : Config) (k : ℕ)
    → next_delay config (min (config.sync_cooldown_ms * 2 ^ k) config.sync_max_cooldown_ms)
      ≡ min (config.sync_cooldown_ms * 2 ^ suc k) config.sync_max_cooldown_ms
unfolding next_delay
next_delay_doubles config k =
    let c = config.sync_cooldown_ms in
    doubled_once c config.sync_max_cooldown_ms (c * 2 ^ k) (le-doubled c k)
    ∙ ap (λ x. min x config.sync_max_cooldown_ms)
        (mul_assoc c (2 ^ k) 2 ∙ ap (λ x. c * x) (sym (pow-suc 2 k)))

setbacks_from :
    (config : Config) (topic : Text) (times : List ℕ) (k : ℕ) (q : Queue)
    → delay_of topic q ≡ min (config.sync_cooldown_ms * 2 ^ k) config.sync_max_cooldown_ms
    → delay_of topic (setbacks config topic times q)
      ≡ min (config.sync_cooldown_ms * 2 ^ (k + length times)) config.sync_max_cooldown_ms
unfolding setbacks
setbacks_from config topic [] k q e =
    e ∙ ap (λ n. min (config.sync_cooldown_ms * 2 ^ n) config.sync_max_cooldown_ms) (omega arith)
setbacks_from config topic (now ∷ times) k q e =
    setbacks_from config topic times (suc k) (note_sync_setback config topic now q)
      (setback_delay config topic now q ∙ ap (next_delay config) e ∙ next_delay_doubles config k)
    ∙ ap (λ n. min (config.sync_cooldown_ms * 2 ^ n) config.sync_max_cooldown_ms) (omega arith)

first_delay :
    (config : Config) (topic : Text) (q : Queue)
    → Map.get topic q.sync_retry_backoff ≡ none
    → next_delay config (delay_of topic q)
      ≡ min (config.sync_cooldown_ms * 2 ^ 0) config.sync_max_cooldown_ms
unfolding next_delay
first_delay config topic q e = rw e (omega arith)

-- The delay of a topic that had no back-off grows like this: after n + 1 setbacks in a row, at
-- whatever times, it is the cool-down times 2 ^ n, or the maximum where that is less.
pub setbacks_double :
    (config : Config) (topic : Text) (now : ℕ) (times : List ℕ) (q : Queue)
    → Map.get topic q.sync_retry_backoff ≡ none
    → delay_of topic (setbacks config topic (now ∷ times) q)
      ≡ min (config.sync_cooldown_ms * 2 ^ length times) config.sync_max_cooldown_ms
unfolding setbacks
setbacks_double config topic now times q e =
    setbacks_from config topic times 0 (note_sync_setback config topic now q)
      (setback_delay config topic now q ∙ first_delay config topic q e)
    ∙ ap (λ n. min (config.sync_cooldown_ms * 2 ^ n) config.sync_max_cooldown_ms) (omega arith)

end_sync_waits :
    (config : Config) (o : Outcome) (topic : Text) (now : ℕ) (q : Queue) (rest : List Text)
    (later : ℕ)
    → take_topic topic q.sync_queue.running ≡ some rest
    → o ≢ completed
    → is_held_back later (Map.get topic (end_sync config o topic now q).sync_retry_backoff)
      ≡ ltb later (now + next_delay config (delay_of topic q))
unfolding end_sync after_race after_task release_slot note_sync_setback
end_sync_waits config completed topic now q rest later found bad = absurd (bad refl)
end_sync_waits config timed_out topic now q rest later found bad =
    let delay = next_delay config (delay_of topic q) in
    rw
      (
        found,
        end_sync,
        Map.get-set_self topic (record { not_before = now + delay; delay_ms = delay })
            q.sync_retry_backoff,
      )
      refl
end_sync_waits config threw topic now q rest later found bad =
    let delay = next_delay config (delay_of topic q) in
    rw
      (
        found,
        end_sync,
        Map.get-set_self topic (record { not_before = now + delay; delay_ms = delay })
            q.sync_retry_backoff,
      )
      refl

end_sync_frees :
    (config : Config) (o : Outcome) (topic : Text) (now : ℕ) (q : Queue) (rest : List Text)
    → take_topic topic q.sync_queue.running ≡ some rest
    → TextSet.has topic (end_sync config o topic now q).queued_orbitdb_sync_topics ≡ false
unfolding end_sync after_race after_task release_slot note_sync_setback
end_sync_frees config completed topic now q rest found =
    rw (found, end_sync)
      (ground
        (arith, TextSet.has-delete topic topic q.queued_orbitdb_sync_topics, text_eq_refl topic))
end_sync_frees config timed_out topic now q rest found =
    rw (found, end_sync)
      (ground
        (arith, TextSet.has-delete topic topic q.queued_orbitdb_sync_topics, text_eq_refl topic))
end_sync_frees config threw topic now q rest found =
    rw (found, end_sync)
      (ground
        (arith, TextSet.has-delete topic topic q.queued_orbitdb_sync_topics, text_eq_refl topic))

end_sync_up :
    (config : Config) (o : Outcome) (topic : Text) (now : ℕ) (q : Queue)
    → (end_sync config o topic now q).is_shutting_down ≡ q.is_shutting_down
unfolding end_sync after_race after_task release_slot note_sync_setback
end_sync_up config o topic now q = ground arith

sight_queues :
    (config : Config) (topic : Text) (later : ℕ) (r : Relay)
    → starts_with topic orbitdb_prefix ≡ true
    → TextSet.has topic r.queue.queued_orbitdb_sync_topics ≡ false
    → is_held_open r.service topic ≡ false
    → TextSet.has topic (sight config topic later r).queue.queued_orbitdb_sync_topics
      ≡ not (is_held_back later (Map.get topic r.queue.sync_retry_backoff))
unfolding sight fetch_manifest_chain_on_first_sight schedule_orbitdb_topic_sync
sight_queues config topic later r hit free closed = ground (
  arith,
  hit,
  free,
  closed,
  TextSet.has-add topic topic r.queue.queued_orbitdb_sync_topics,
  text_eq_refl topic,
)

-- A running sync of a database topic times out or throws at `now`, before the clean-up. Then a
-- message on the topic, of a database that is not held open, queues the next sync if and only if it
-- comes no sooner than the next delay after `now`.
pub setback-holds_back :
    (config : Config) (o : Outcome) (topic : Text) (now later : ℕ) (r : Relay) (rest : List Text)
    → take_topic topic r.queue.sync_queue.running ≡ some rest
    → o ≢ completed
    → r.queue.is_shutting_down ≡ false
    → starts_with topic orbitdb_prefix ≡ true
    → is_held_open r.service topic ≡ false
    → TextSet.has topic
        (run config
          (sync_ends o topic now ∷ message (some topic) later ∷ [])
          r).queue.queued_orbitdb_sync_topics
      ≡ not (ltb later (now + next_delay config (delay_of topic r.queue)))
unfolding run step on_queue pubsub_message_handler
setback-holds_back config o topic now later r rest found bad up hit closed =
    let r' : Relay = record r { queue = end_sync config o topic now r.queue } in
    simp ((end_sync_up config o topic now r.queue ∙ up), hit)
      (sight_queues config topic later r' hit (end_sync_frees config o topic now r.queue rest found)
          closed
        ∙ ap not (end_sync_waits config o topic now r.queue rest later found bad))
