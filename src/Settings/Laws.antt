-- ===== src/Settings/Laws.antt =====
-- Theorems about the settings that are read from the environment.
use orbitdb_relay.Prelude.{
  ℕ, zero, suc, ◌*◌, ◌^◌, ◌≤◌, min, Text, Option, none, List, ◌∷◌, length, ◌≡◌, arith,
}
use native.Mathlib.Nat.{mul-suc, one-le-pow}
use orbitdb_relay.Prelude.Map
use orbitdb_relay.TopicQueue.{Config, Queue}
use orbitdb_relay.TopicQueue.Cooldown.{delay_of, setbacks, setbacks_double}
use orbitdb_relay.Settings.{
  Number, queue_config, get_orbitdb_fast_lane_concurrency, get_orbitdb_topic_sync_cooldown_ms,
  get_orbitdb_topic_sync_max_cooldown_ms,
}

le_mul : (k p : ℕ) → 1 ≤ p → k ≤ k * p
le_mul k zero h = absurd (omega (arith, h))
le_mul k (suc p) h = rw (mul-suc k p) (omega arith)

setbacks-bounds :
    (config : Config) (topic : Text) (now : ℕ) (times : List ℕ) (q : Queue)
    → Map.get topic q.sync_retry_backoff ≡ none
    → (delay_of topic (setbacks config topic (now ∷ times) q) ≤ config.sync_max_cooldown_ms)
      × (min config.sync_cooldown_ms config.sync_max_cooldown_ms
          ≤ delay_of topic (setbacks config topic (now ∷ times) q))
setbacks-bounds config topic now times q fresh =
    let doubled = setbacks_double config topic now times q fresh in
    let grown =
      le_mul config.sync_cooldown_ms (2 ^ length times)
        (one-le-pow (length times) 2 (omega arith)) in
    rw doubled (omega arith, omega (arith, grown))

module _ (number : Text → Number) (env : Text → Option Text) where
  -- Whatever the environment holds, a topic that had no setback before waits, after any number of
  -- setbacks in a row, no longer than the longest cooldown, and no shorter than the first one
  -- unless that is longer still; and the fast lane runs at least one fetch at a time.
  pub queue_config-bounds :
      (topic : Text) (now : ℕ) (times : List ℕ) (q : Queue)
      → Map.get topic q.sync_retry_backoff ≡ none
      → (delay_of topic (setbacks (queue_config number env) topic (now ∷ times) q)
          ≤ get_orbitdb_topic_sync_max_cooldown_ms number env)
        × (min
              (get_orbitdb_topic_sync_cooldown_ms number env)
              (get_orbitdb_topic_sync_max_cooldown_ms number env)
            ≤ delay_of topic (setbacks (queue_config number env) topic (now ∷ times) q))
        × (1 ≤ get_orbitdb_fast_lane_concurrency number env)
  unfolding queue_config
  queue_config-bounds topic now times q fresh =
      let (longest, shortest) = setbacks-bounds (queue_config number env) topic now times q fresh in
      (longest, shortest, omega arith)
