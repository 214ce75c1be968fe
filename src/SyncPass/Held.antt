-- ===== src/SyncPass/Held.antt =====
-- What a sync pass of src/services/database.ts leaves behind: the databases held open,
-- and what became of the records it saw.
use orbitdb_relay.Prelude.{
  ℕ, Text, text_eq, text_eq_refl, Bool, true, false, Option, none, some, List, [], ◌∷◌, ◌++◌, map,
  length, is_some, ltb, ◌==◌, inl, inr, ◌≡◌, refl, ◌∙◌, arith, not, ◌||◌,
}
use orbitdb_relay.Prelude.Map
use orbitdb_relay.Values.{Value, lookup, coalesce}
use orbitdb_relay.Media.{at}
use orbitdb_relay.Media.References.{References, offers, in_object, in_json, first_present}
use orbitdb_relay.Media.Laws.{Referenced, payload}
use orbitdb_relay.Peers.{is_held_open}
use orbitdb_relay.Pinning.Laws.{PinInv}
use orbitdb_relay.Proofs.{record_sync_proof}
use orbitdb_relay.Retention.{release_open_database}
use orbitdb_relay.Service.{Service, Db}
use orbitdb_relay.Snapshot.{Snapshot, Listing, rows}
use orbitdb_relay.Watch.{update_record, watch_database_updates, unwatch_database_updates}
use orbitdb_relay.Watch.Laws.{IsAccounted, take_records-IsAccounted}
use orbitdb_relay.SyncPass.{
  Locals, Heard, burst, silence, scan_record, scanned, has_replicated_state, heard_records, harvest,
  hold_open, hold_controller, conclude, unwatch_unheld, unwatch_controller, release_unheld,
  release_controller, clean_up,
}

-- The value offers the CID, or the object in its `value` field does, at most four levels down.
abbrev pub Offers : (Text → Option Value) → Text → Value → Type 0
Offers parse_json c v = References parse_json 4 v c

-- A pass sees a CID in an update that came: in the first of the value of its payload, its own value
-- and the update itself that is there. If none came, it sees one in a row of the fallback scan: in
-- the value of the row, or the row itself if it has none.
pub data Sees (parse_json : Text → Option Value) (c : Text) : Heard → Option Listing → Type 0 where
  in_update :
      (before : List Value) (u : Value) (after : List Value) {listing : Option Listing}
      → Offers parse_json c (first_present (at "value" (at "payload" u) ∷ at "value" u ∷ u ∷ []))
      → Sees parse_json c (burst (before ++ u ∷ after)) listing
  in_row :
      (before : List Value) (row : Value) (after : List Value)
      → Offers parse_json c (first_present (at "value" row ∷ row ∷ []))
      → Sees parse_json c silence (some (rows (before ++ row ∷ after)))

-- What references a CID is there.
coalesce-References :
    (parse_json : Text → Option Value) (c : Text) {v : Value}
    → References parse_json 4 v c
    → (w : Value) → References parse_json 4 (coalesce v w) c
coalesce-References parse_json c (offers e) w = offers e
coalesce-References parse_json c (in_object e r) w = in_object e r
coalesce-References parse_json c (in_json e n p r) w = in_json e n p r

Referenced-map :
    (parse_json : Text → Option Value) (c : Text) (record_of : Value → Value) (before : List Value)
    (v : Value) (after : List Value)
    → References parse_json 4 (payload parse_json c (record_of v)) c
    → Referenced parse_json c (map record_of (before ++ v ∷ after))
Referenced-map parse_json c record_of [] v after r = inl r
Referenced-map parse_json c record_of (b ∷ before) v after r =
    inr (Referenced-map parse_json c record_of before v after r)

Sees-Referenced :
    (parse_json : Text → Option Value) (c : Text) {heard : Heard} {listing : Option Listing}
    → Sees parse_json c heard listing
    → Referenced parse_json c (heard_records heard listing)
unfolding heard_records update_record scan_record scanned lookup text_eq
Sees-Referenced parse_json c (in_update before u after r) =
    Referenced-map parse_json c update_record before u after (coalesce-References parse_json c r _)
Sees-Referenced parse_json c (in_row before row after r) =
    Referenced-map parse_json c scan_record before row after (coalesce-References parse_json c r _)

-- A pass loses no CID: every CID that it sees, in any of the updates that came or else in any row
-- of the fallback scan, is afterwards pinned, or queued with exactly one task outstanding, before
-- the shutdown, on a node with a pin interface whose queue is in order for the CID.
pub harvest-IsAccounted :
    (parse_json : Text → Option Value) (a c : Text) (heard : Heard) (listing : Option Listing)
    (s : Service)
    → PinInv s c
    → s.is_shutting_down ≡ false
    → Sees parse_json c heard listing
    → IsAccounted c (harvest parse_json true a heard listing s)
unfolding harvest
harvest-IsAccounted parse_json a c heard listing s v up seen =
    take_records-IsAccounted parse_json a c (heard_records heard listing) s v up
      (Sees-Referenced parse_json c seen)

release_open_pinned :
    (a : Text) (db : Db) (s : Service)
    → (release_open_database a db s).1.pinned_open_databases ≡ s.pinned_open_databases
unfolding release_open_database
release_open_pinned a db s = ground arith

abbrev pub is_named : Text → Option Text → Bool
is_named b none = false
is_named b (some a) = text_eq a b

release_unheld_pinned :
    (a : Text) (db : Option Db) (s : Service)
    → (release_unheld a db s).1.pinned_open_databases ≡ s.pinned_open_databases
unfolding release_unheld
release_unheld_pinned a none s = refl
release_unheld_pinned a (some db) s = ground (arith, release_open_pinned a db s)

release_controller_pinned :
    (acl : Option Text) (acl_db db : Option Db) (s : Service)
    → (release_controller acl acl_db db s).1.pinned_open_databases ≡ s.pinned_open_databases
unfolding release_controller
release_controller_pinned (some a) (some acl_db) db s =
    ground (arith, release_unheld_pinned a (some acl_db) s)
release_controller_pinned (some a) none db s = refl
release_controller_pinned none acl_db db s = refl

pub unwatch_unheld_pinned :
    (a : Text) (s : Service) → (unwatch_unheld a s).pinned_open_databases ≡ s.pinned_open_databases
unfolding unwatch_unheld unwatch_database_updates
unwatch_unheld_pinned a s = ground arith

pub unwatch_controller_pinned :
    (acl : Option Text) (a : Text) (s : Service)
    → (unwatch_controller acl a s).pinned_open_databases ≡ s.pinned_open_databases
unfolding unwatch_controller
unwatch_controller_pinned none a s = refl
unwatch_controller_pinned (some b) a s = ground (arith, unwatch_unheld_pinned b s)

pub clean_up_pinned :
    (l : Locals) (s : Service) → (clean_up l s).pinned_open_databases ≡ s.pinned_open_databases
unfolding clean_up
clean_up_pinned l s =
    release_controller_pinned l.acl_address l.acl_db l.db _
    ∙ release_unheld_pinned l.db_address l.db _
    ∙ unwatch_controller_pinned l.acl_address l.db_address _
    ∙ unwatch_unheld_pinned l.db_address s

module _ (has_events : Db → Bool) where
  hold_open_pinned :
      (a b : Text) (db : Db) (s : Service)
      → Map.has b (hold_open has_events a db s).pinned_open_databases
        ≡ (text_eq a b || Map.has b s.pinned_open_databases)
  unfolding hold_open watch_database_updates unwatch_database_updates
  hold_open_pinned a b db s = ground (arith, Map.get-set b a db s.pinned_open_databases)

  hold_controller_pinned :
      (b : Text) (acl_address : Option Text) (acl_db : Option Db) (s : Service)
      → Map.has b s.pinned_open_databases ≡ true
      → Map.has b (hold_controller has_events acl_address acl_db s).pinned_open_databases ≡ true
  unfolding hold_controller
  hold_controller_pinned b (some a) (some db) s h = ground (arith, hold_open_pinned a b db s, h)
  hold_controller_pinned b (some a) none s h = h
  hold_controller_pinned b none acl_db s h = h

concluded_holds_open :
    (has_events : Db → Bool) (l : Locals) (db : Db) (replicated : Bool) (now : ℕ)
    (snapshot : Snapshot) (s : Service)
    → is_held_open
        (clean_up l
          (conclude has_events l.db_address db l.acl_address l.acl_db replicated now snapshot s))
        l.db_address
      ≡ (replicated || is_held_open s l.db_address)
unfolding conclude is_held_open record_sync_proof
concluded_holds_open has_events l db true now snapshot s = rw (clean_up_pinned l _) (
    hold_controller_pinned has_events l.db_address l.acl_address l.acl_db _ (
      ground (
        arith,
        hold_open_pinned has_events l.db_address l.db_address db
            (record_sync_proof s l.db_address now snapshot),
        text_eq_refl l.db_address,
      )))
concluded_holds_open has_events l db false now snapshot s = rw (clean_up_pinned l _) refl

-- What shows that a database has contents: a CID in what the pass heard, an update, a last record
-- or a number of entries that is not 0.
abbrev pub shows_state : Snapshot → Bool → List Text → Bool
shows_state snapshot received_update cids =
    ltb 0 (length cids)
    || received_update
    || is_some snapshot.last_record
    || elim snapshot.entry_count [ none ↦ false | some n ↦ not (n == 0) ]

pub has_replicated_state_lem :
    (snapshot : Snapshot) (received_update : Bool) (cids : List Text)
    → has_replicated_state snapshot received_update cids ≡ shows_state snapshot received_update cids
unfolding has_replicated_state
has_replicated_state_lem snapshot received_update [] = ground arith
has_replicated_state_lem snapshot received_update (c ∷ cids) = ground arith

-- After a pass that did not fail, its database is held open exactly when it was so before, or the
-- pass heard of a CID or an update, or its snapshot has a last record or at least one entry. An
-- early empty pass does not keep the database.
pub conclude-holds_open :
    (has_events : Db → Bool) (l : Locals) (db : Db) (received_update : Bool) (cids : List Text)
    (now : ℕ) (snapshot : Snapshot) (s : Service)
    → is_held_open
        (clean_up l (
          conclude has_events l.db_address db l.acl_address l.acl_db
            (has_replicated_state snapshot received_update cids)
            now
            snapshot
            s))
        l.db_address
      ≡ (shows_state snapshot received_update cids || is_held_open s l.db_address)
conclude-holds_open has_events l db received_update cids now snapshot s =
    rw (has_replicated_state_lem snapshot received_update cids) (
      concluded_holds_open has_events l db (shows_state snapshot received_update cids) now snapshot
        s)
