-- ===== src/OnDemand.antt =====
-- src/services/database.ts, what serves a stream of the heads protocol on demand, and what reads
-- ahead of a sync: `handleOnDemandHeadsProtocol` with `ensurePeerConnection`, `loadManifest`,
-- `preOpenAccessController` and `streamPinnedIpfsContent`. The blocks, the pins and UnixFS are
-- arguments.
pub mod Laws
mod Tests
use orbitdb_relay.Prelude.{
  ℕ, starts_with, Text, codes, text_eq, Bool, true, false, Option, none, some, List, [], ◌∷◌, ◌&&◌,
  ◌||◌, not, if◌then◌else◌, any, get_or,
}
use orbitdb_relay.Prelude.Map
use orbitdb_relay.Prelude.TextSet
use orbitdb_relay.Addresses.{
  orbitdb_prefix, db_address_from_heads_protocol, normalize_orbitdb_access_address,
}
use orbitdb_relay.ManifestChain.{
  Outcome, failed, got, Blocks, fetch_address, name_of, remember_name, text_of, controller_of,
}
use orbitdb_relay.Retention.{count_use, release_open_database}
use orbitdb_relay.Service.{Service, Db}
use orbitdb_relay.Values.{Value, null, coalesce, member}
use orbitdb_relay.Waits.{Rounds, wait_for_registered_heads_handler}

-- What libp2p says of the connections to a peer: their statuses, or an exception.
abbrev pub has_live_connection : Option (List Text) → Bool
has_live_connection none = false
has_live_connection (some statuses) = any (λ status. not (text_eq status (codes "closed"))) statuses

-- Whether the relay dials the peer back; `none` is a peer that is null, or a node that cannot say.
unfoldable pub ensure_peer_connection : Option (Option (List Text)) → Bool
ensure_peer_connection none = false
ensure_peer_connection (some connections) = not (has_live_connection connections)

pub data Served : Type 0 where
  unknown_protocol open_fails no_handler handler_throws served : Served
  still_dials still_opens still_serves : Served

-- `retainOpenDatabase`, which may also never come back.
pub data Opening : Type 0 where
  open_gives : Db → Opening
  open_throws open_hangs : Opening

pub data Ran : Type 0 where
  returns throws hangs : Ran

-- What an exchange meets: whether `ensurePeerConnection` comes back, what opening the database
-- gives, when the handler is looked up and whether it is there, how it runs, and what other calls
-- do to the service until then. The dial, the open and the handler have no time limit.
pub record Exchange (Handler : Type 0) : Type 0 where
  pub dials : Bool
  pub opened : Opening
  pub rounds : Rounds
  pub look_up : ℕ → Option Handler
  pub runs : Handler → Ran
  pub meanwhile : Service → Service

abbrev pub on_demand_heads_handler_timeout_ms : ℕ
on_demand_heads_handler_timeout_ms = 5000

-- The `finally` releases the database, once the look-up has failed or the handler has come back.
abbrev pub end_run : Ran → Text → Db → Service → Served × (Option Db × Service)
end_run returns db_address db service = (served, release_open_database db_address db service)
end_run throws db_address db service = (handler_throws, release_open_database db_address db service)
end_run hangs db_address db service = (still_serves, (none, service))

module _ {Handler : Type 0} where
  abbrev pub end_exchange :
      Exchange Handler
      → Text
      → Db
      → Service
      → Option (Option Handler)
      → Option (Served × (Option Db × Service))
  end_exchange x db_address db service none = none
  end_exchange x db_address db service (some none) =
      some (no_handler, release_open_database db_address db service)
  end_exchange x db_address db service (some (some handler)) =
      some (end_run (x.runs handler) db_address db service)

  unfoldable pub exchange :
      ℕ → Exchange Handler → Text → Opening → Service → Option (Served × (Option Db × Service))
  exchange fuel x db_address open_throws service = some (open_fails, (none, service))
  exchange fuel x db_address open_hangs service = some (still_opens, (none, service))
  exchange fuel x db_address (open_gives db) service =
      end_exchange x db_address db (x.meanwhile (count_use db_address service)) (
        wait_for_registered_heads_handler fuel x.rounds on_demand_heads_handler_timeout_ms
          x.look_up)

  -- How it ends or where it still waits, the database that is closed, and the service then.
  unfoldable pub handle_on_demand_heads_protocol :
      ℕ → Exchange Handler → Text → Service → Option (Served × (Option Db × Service))
  unfolding exchange
  handle_on_demand_heads_protocol fuel x protocol service =
      elim (db_address_from_heads_protocol protocol) [
        | none ↦ some (unknown_protocol, (none, service))
        | some db_address ↦
            if not (TextSet.has db_address service.known_databases_by_address)
            then some (unknown_protocol, (none, service))
            else if not x.dials
            then some (still_dials, (none, service))
            else exchange fuel x db_address x.opened service
      ]

abbrev pub end_load : Text → Outcome (Text × Value) → Service → Option Value × Service
end_load db_address (failed error) service = (none, service)
end_load db_address (got (cid, value)) service = (
  some (coalesce value null),
  remember_name db_address (name_of (member (codes "name") value)) service,
)

unfoldable pub load_manifest : Blocks → Text → Service → Option Value × Service
load_manifest b db_address service = end_load db_address (fetch_address b db_address) service

-- It only fills in the name that a log line shows.
unfoldable pub prefetch_manifest_for_logging : Blocks → Text → Service → Service
unfolding load_manifest
prefetch_manifest_for_logging b db_address service =
    if not (starts_with db_address orbitdb_prefix)
      || Map.has db_address service.orbit_db_name_by_address
    then service
    else (load_manifest b db_address service).1

-- The address of the controller that is opened ahead of a database with this manifest.
unfoldable pub pre_opened : Option Value → Option Text
pre_opened none = none
pre_opened (some manifest) = normalize_orbitdb_access_address (text_of (controller_of manifest))

-- It retains the controller that opens; an open that fails is an exception.
unfoldable pub pre_open_access_controller :
    Option Value → (Text → Option Db) → Service → Option (Option Db) × Service
unfolding pre_opened
pre_open_access_controller manifest opens service = elim (pre_opened manifest) [
  | none ↦ (some none, service)
  | some address ↦ elim (opens address) [
    | none ↦ (none, service)
    | some db ↦ (some (some db), count_use address service)
  ]
]

pub data Entry : Type 0 where
  directory file : Entry

-- The local node: whether a text is a CID, whether it is pinned, and what its own store says of a
-- path under it. `none` stands for an exception.
pub record LocalNode (Chunks : Type 0) : Type 0 where
  pub is_available : Bool
  pub is_cid : Text → Bool
  pub is_pinned : Text → Option Bool
  pub stat_offline : Text → Option Text → Option Entry
  pub cat_offline : Text → Option Text → Chunks
  pub block_offline : Text → Option Chunks

pub data Streamed (Chunks : Type 0) : Type 0 where
  streams : Chunks → Streamed Chunks
  refuses : ℕ → Text → Streamed Chunks

module _ {Chunks : Type 0} where
  -- The `catch` where the content is no UnixFS file that is there.
  unfoldable pub single_block : LocalNode Chunks → Text → Option Text → Streamed Chunks
  single_block node cid (some path) = refuses 404 (codes "Content not available locally at path")
  single_block node cid none = elim (node.block_offline cid) [
    | none ↦ refuses 404 (codes "Content not available locally")
    | some block ↦ streams block
  ]

  unfoldable pub stream_content : LocalNode Chunks → Text → Option Text → Streamed Chunks
  unfolding single_block
  stream_content node cid path_within = elim (node.stat_offline cid path_within) [
    | none ↦ single_block node cid path_within
    | some directory ↦
        refuses 400 (codes "Directory download is not supported; specify a file path under the CID")
    | some file ↦ streams (node.cat_offline cid path_within)
  ]

  unfoldable pub stream_pinned_ipfs_content :
      LocalNode Chunks → Text → Option Text → Streamed Chunks
  unfolding stream_content
  stream_pinned_ipfs_content node cid path_within =
      if not node.is_available
      then refuses 503 (codes "IPFS node not available")
      else if not (node.is_cid cid)
      then refuses 400 (codes "Invalid CID")
      else elim (node.is_pinned cid) [
        | none ↦ refuses 500 (codes "Pin check failed")
        | some pinned ↦
            if pinned
            then stream_content node cid path_within
            else refuses 404 (codes "CID is not pinned locally")
      ]
