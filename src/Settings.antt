-- ===== src/Settings.antt =====
-- src/config/orbitdb-sync-env.ts and src/config/circuit-relay-env.ts: the settings that are read
-- from the environment, and those that setupOrbitdbReplicationHandlers of
-- src/services/orbitdb-replication-service.ts takes from them. What `Number` and `BigInt` make of a
-- text is an argument.
pub mod Laws
mod Tests
use orbitdb_relay.Prelude.{ℕ, ◌*◌, max, Text, codes, Option, none, some, [], ◌∷◌}
use orbitdb_relay.TopicQueue.{Config}

-- `Number(raw)`: a number below 0, another with this whole part, or none that is finite.
pub data Number : Type 0 where
  negative : Number
  whole_part : ℕ → Number
  not_finite : Number

abbrev pub or_default : ℕ → Number → ℕ
or_default default_val negative = default_val
or_default default_val (whole_part n) = n
or_default default_val not_finite = default_val

-- A variable that is empty counts as one that is not set.
unfoldable pub env_int : (Text → Number) → (Text → Option Text) → Text → ℕ → ℕ
env_int number env name default_val = elim (env name) [
  | none ↦ default_val
  | some raw ↦ elim raw [ [] ↦ default_val | c ∷ s ↦ or_default default_val (number (c ∷ s)) ]
]

-- `none` is an exception of `BigInt`; a negative limit is left out.
unfoldable pub env_big_int : (Text → Option ℕ) → (Text → Option Text) → Text → ℕ → ℕ
env_big_int big_int env name default_val = elim (env name) [
  | none ↦ default_val
  | some raw ↦ elim raw [
    | [] ↦ default_val
    | c ∷ s ↦ elim (big_int (c ∷ s)) [ none ↦ default_val | some n ↦ n ]
  ]
]

module _ (number : Text → Number) (env : Text → Option Text) where
  abbrev pub get_orbitdb_topic_sync_timeout_ms : ℕ
  get_orbitdb_topic_sync_timeout_ms =
      env_int number env (codes "RELAY_ORBITDB_SYNC_TIMEOUT_MS") 120_000

  abbrev pub get_orbitdb_topic_sync_cooldown_ms : ℕ
  get_orbitdb_topic_sync_cooldown_ms =
      env_int number env (codes "RELAY_ORBITDB_SYNC_COOLDOWN_MS") 60_000

  abbrev pub get_orbitdb_topic_sync_max_cooldown_ms : ℕ
  get_orbitdb_topic_sync_max_cooldown_ms =
      env_int number env (codes "RELAY_ORBITDB_SYNC_MAX_COOLDOWN_MS") (15 * 60 * 1000)

  abbrev pub get_orbitdb_subscribe_timeout_ms : ℕ
  get_orbitdb_subscribe_timeout_ms =
      env_int number env (codes "RELAY_ORBITDB_SUBSCRIBE_TIMEOUT_MS") 15_000

  abbrev pub get_orbitdb_fast_lane_concurrency : ℕ
  get_orbitdb_fast_lane_concurrency =
      max 1 (env_int number env (codes "RELAY_ORBITDB_FAST_LANE_CONCURRENCY") 8)

  abbrev pub get_orbitdb_fast_lane_block_timeout_ms : ℕ
  get_orbitdb_fast_lane_block_timeout_ms =
      env_int number env (codes "RELAY_ORBITDB_FAST_LANE_BLOCK_TIMEOUT_MS") 5000

  abbrev pub get_orbitdb_fast_lane_retry_ms : ℕ
  get_orbitdb_fast_lane_retry_ms =
      env_int number env (codes "RELAY_ORBITDB_FAST_LANE_RETRY_MS") 30_000

  -- The settings of the topic queue.
  unfoldable pub queue_config : Config
  unfolding env_int
  queue_config = record {
    sync_cooldown_ms = get_orbitdb_topic_sync_cooldown_ms;
    sync_max_cooldown_ms = get_orbitdb_topic_sync_max_cooldown_ms;
    fast_lane_retry_ms = get_orbitdb_fast_lane_retry_ms;
  }

  abbrev pub get_circuit_relay_hop_timeout_ms : ℕ
  get_circuit_relay_hop_timeout_ms =
      env_int number env (codes "RELAY_CIRCUIT_HOP_TIMEOUT_MS") (30_000 * 10)

  abbrev pub get_circuit_relay_max_reservations : ℕ
  get_circuit_relay_max_reservations =
      env_int number env (codes "RELAY_CIRCUIT_MAX_RESERVATIONS") (1000 * 10)

  abbrev pub get_circuit_relay_reservation_ttl_ms : ℕ
  get_circuit_relay_reservation_ttl_ms =
      env_int number env (codes "RELAY_CIRCUIT_RESERVATION_TTL_MS") (20 * 60 * 1000)

  abbrev pub get_circuit_relay_default_duration_limit_ms : ℕ
  get_circuit_relay_default_duration_limit_ms =
      env_int number env (codes "RELAY_CIRCUIT_DEFAULT_DURATION_LIMIT_MS") (2 * 60 * 1000 * 10)

abbrev pub get_circuit_relay_default_data_limit_bytes : (Text → Option ℕ) → (Text → Option Text) → ℕ
get_circuit_relay_default_data_limit_bytes big_int env =
    env_big_int big_int env (codes "RELAY_CIRCUIT_DEFAULT_DATA_LIMIT_BYTES")
      (1024 * 1024 * 1024 * 10)
