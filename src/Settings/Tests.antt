-- ===== src/Settings/Tests.antt =====
-- The settings that concrete environments give.
use orbitdb_relay.Prelude.{
  ◌≤◌, min, Text, codes, text_eq, Option, none, some, [], ◌∷◌, if◌then◌else◌, ◌≡◌, refl,
}
use orbitdb_relay.Prelude.Map
use orbitdb_relay.TopicQueue.{new_queue}
use orbitdb_relay.TopicQueue.Cooldown.{delay_of, setbacks}
use orbitdb_relay.Settings.{
  Number, whole_part, not_finite, env_int, queue_config, get_orbitdb_topic_sync_cooldown_ms,
  get_orbitdb_topic_sync_max_cooldown_ms, get_orbitdb_fast_lane_concurrency,
  get_circuit_relay_max_reservations,
}
use orbitdb_relay.Settings.Laws.{queue_config-bounds}

abbrev number : Text → Number
number raw = if text_eq raw (codes "0") then whole_part 0 else not_finite

-- The fast lane is meant to have no slot, and one number is none.
abbrev env : Text → Option Text
env name =
    if text_eq name (codes "RELAY_ORBITDB_FAST_LANE_CONCURRENCY")
    then some (codes "0")
    else if text_eq name (codes "RELAY_CIRCUIT_MAX_RESERVATIONS")
    then some (codes "many")
    else none

queue_config-bounds_example :
    (delay_of
        (codes "/orbitdb/a")
        (setbacks (queue_config number env) (codes "/orbitdb/a") (5 ∷ 9 ∷ []) new_queue)
      ≤ get_orbitdb_topic_sync_max_cooldown_ms number env)
    × (min
          (get_orbitdb_topic_sync_cooldown_ms number env)
          (get_orbitdb_topic_sync_max_cooldown_ms number env)
        ≤ delay_of
            (codes "/orbitdb/a")
            (setbacks (queue_config number env) (codes "/orbitdb/a") (5 ∷ 9 ∷ []) new_queue))
    × (1 ≤ get_orbitdb_fast_lane_concurrency number env)
unfolding Map.get
queue_config-bounds_example =
    queue_config-bounds number env (codes "/orbitdb/a") 5 (9 ∷ []) new_queue refl

one_fetch : get_orbitdb_fast_lane_concurrency number env ≡ 1
unfolding env_int text_eq
one_fetch = refl

no_number : get_circuit_relay_max_reservations number env ≡ 10_000
unfolding env_int text_eq
no_number = refl
