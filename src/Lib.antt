-- ===== src/Lib.antt =====
-- orbitdb-relay: the relay that replicates OrbitDB databases, pins their media and serves their heads.
--
-- The program. Browsers announce OrbitDB databases as pubsub topics /orbitdb/<hash>. The handlers of
-- src/services/orbitdb-replication-service.ts put such a topic on two queues: the fast lane fetches
-- the blocks that a peer needs to open the database, the sync queue runs a full sync. A sync is a
-- call of the database service, src/services/database.ts. It opens the database (callers share one
-- open and count their uses), waits for entries, collects the media CIDs that the entries reference
-- and hands them to the pin queue, remembers addresses of other databases that stand in the entries,
-- and records a proof of what it replicated. Known databases are served through heads protocol ids.
--
-- The parts. Prelude and its children: Boolean tests on native numbers, texts as lists of character
-- codes, association lists (Map), sets in insertion order (TextSet) and a sort.
-- Values: the JavaScript values found in records.
-- Addresses: normalizeOrbitdbAccessAddress, rememberKnownDatabaseAddress, getKnownHeadsProtocols,
-- isKnownHeadsProtocol and dbAddressFromHeadsProtocol of src/services/database.ts, and the address
-- rewrites of src/access/deferred-orbitdb-access-controller.ts.
-- Media: extractImageCidsFromPayload and extractImageCids. Discovery:
-- rememberKnownDatabaseAddressesFromRecords. Snapshot: snapshotLocalStateAfterSync with the
-- summaries for its last record; Snapshot.Membership: hasLocalOrbitDBEntry. Service: the fields of DatabaseService and
-- its constructor. Proofs: recordSyncProof. Pinning: enqueueImageCidsForPinning, its task,
-- beginShutdown and the clearing in stop. Retention: openDatabase, retainOpenDatabase and
-- releaseOpenDatabase. Peers: rememberDatabasePeer and isHeldOpen; Peers.Reconnect:
-- reconnectKnownDatabasePeers, canDialBack and isConnected. ManifestChain: fetchManifestChain.
-- SyncFlight, Watch and SyncPass: syncAllOrbitDBRecordsWithResult before and after its pass, the
-- listeners of watchDatabaseUpdates and unwatchDatabaseUpdates, and the pass itself in parts.
-- Registrar: installOnDemandOrbitdbHeadsSupport of src/services/orbitdb-replication-service.ts.
-- Exposure: src/config/pinning-exposure-env.ts. Http, Http.Messages and Http.Routes: the request handler of
-- src/http/pinning-http.ts, and getDatabases of the database service.
-- TopicQueue and TopicQueue.Handlers: setupOrbitdbReplicationHandlers of
-- src/services/orbitdb-replication-service.ts.
-- Waits: the loops of the database service that poll with a delay, waitForUpdateEvent,
-- waitForDatabaseActivity, waitForDatabaseHeads and waitForRegisteredHeadsHandler. OnDemand:
-- handleOnDemandHeadsProtocol with ensurePeerConnection, loadManifest,
-- prefetchManifestForLogging, preOpenAccessController and streamPinnedIpfsContent.
-- Access: canAppend, capabilities, grant and revoke of
-- src/access/deferred-orbitdb-access-controller.ts, and canAppend of
-- src/access/ipfs-access-controller.ts. Announce: src/config/announce-addresses.ts.
-- Connectivity and Connectivity.Reader: the echo and bulk protocols of
-- src/services/connectivity-debug-protocols-service.ts. Attest: the bridge of
-- src/services/attest-bridge-service.ts.
-- Lifecycle: afterStart, beforeStop and createPinningHttpHandlers of
-- src/services/orbitdb-replication-service.ts, and stop of src/services/database.ts. Http.Gateway:
-- streamNetworkFallback, and Http.Listing: the bodies of /health and /multiaddrs, of
-- src/http/pinning-http.ts. Identify: src/services/identify-payload.ts. EventHandlers:
-- src/events/handlers.ts with src/config/orbitdb-inbound-filter-env.ts.
-- PinningHandlers: createPinningHttpHandlers of src/services/database.ts, which joins the database service to
-- the HTTP API. Metrics and Metrics.Servers: the settings and the listeners of
-- src/services/metrics.ts.
-- Settings: src/config/orbitdb-sync-env.ts and src/config/circuit-relay-env.ts. Identity:
-- src/identity/relay-verify-fallback.ts and src/identity/worker-ed25519.ts.
-- The other child modules hold theorems (Laws, Shape, Paths, Bodies, Held, Watched, Uses, Invariant, Cooldown,
-- FastLane, Frames, Fuel, Echo) or what their proofs share (References, Merging, Blank, Accounting, LaneRuns, Chunks,
-- Graft, Rights); Tests hold concrete runs.
--
-- State and concurrency. An asynchronous function is cut where it awaits; each part is a function on
-- the state, and runs of the program are sequences of such parts in any order (the lists of events
-- in Pinning and TopicQueue.Handlers, the step relations in Retention and SyncFlight). What p-queue,
-- Helia and OrbitDB do in between is the choice of the event: which waiting task starts and when, how
-- an open, a pin, a fetch or a sync ends. A queue's concurrency limit only removes runs, and is left
-- out.
-- The HTTP handler is a function: what its asynchronous handlers answer is part of its arguments.
-- The time is an argument. A continuation that follows without a further await on I/O (the
-- `finally` and `catch` of a queued task) is one part with what precedes it.
--
-- Bounds. JavaScript numbers are natural numbers here: all that occur are counts and times in
-- milliseconds. The walk through records stops at depth 4 and the extraction at nesting 4, as in the
-- code; the model recurs on the levels left. A decimal print has one step of fuel more than its
-- number, which has no more digits than that. A walk of db.iterator() is a finite list of entries
-- and stops at 100,000 as in the code. A loop that polls has one step of fuel for each round, and no more
-- rounds than its timeout has delays; the bulk protocol has one for each frame, which takes at least
-- four bytes of what has come. Bytes are natural numbers, and a length of a frame is written modulo
-- 2^32 as four of them.
--
-- Not modelled: libp2p, Helia, OrbitDB, p-queue, WebSockets, the parsers of JSON and of multiaddrs and
-- cryptography, which are libraries; logging and counters; the sockets of the HTTP server; the
-- libp2p facade; the options of the libp2p node; the start-up of the process.
pub mod Prelude
pub mod Addresses
pub mod Values
pub mod Media
pub mod Discovery
pub mod Snapshot
pub mod Service
pub mod Proofs
pub mod Pinning
pub mod Retention
pub mod ManifestChain
pub mod Peers
pub mod TopicQueue
pub mod SyncFlight
pub mod Watch
pub mod SyncPass
pub mod Exposure
pub mod Http
pub mod Registrar
pub mod Connectivity
pub mod Announce
pub mod Access
pub mod Lifecycle
pub mod PinningHandlers
pub mod Metrics
pub mod Identity
pub mod Settings
pub mod EventHandlers
pub mod Identify
pub mod Waits
pub mod OnDemand
pub mod Attest
