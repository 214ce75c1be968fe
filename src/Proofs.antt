-- ===== src/Proofs.antt =====
-- src/services/database.ts, `recordSyncProof`: what the relay keeps as the proof that it has
-- replicated a database.
mod Tests
pub mod Laws
use orbitdb_relay.Prelude.{
  ℕ, Text, Bool, true, false, Option, none, some, ◌&&◌, if◌then◌else◌, get_or, ltb, ◌==◌,
}
use orbitdb_relay.Prelude.Map
use orbitdb_relay.Prelude.Map.{Map}
use orbitdb_relay.Service.{Service, PinnedDatabaseRecord}
use orbitdb_relay.Snapshot.{Snapshot}

-- `(existing?.entryCount ?? 0) > 0`
abbrev pub has_entries : Option ℕ → Bool
has_entries count = ltb 0 (get_or count 0)

-- `snapshot.entryCount == null || snapshot.entryCount === 0`
abbrev pub is_empty_count : Option ℕ → Bool
is_empty_count none = true
is_empty_count (some n) = n == 0

unfoldable pub next_proof : Option PinnedDatabaseRecord → Text → ℕ → Snapshot → PinnedDatabaseRecord
next_proof existing db_address now snapshot =
    let fresh : PinnedDatabaseRecord = record {
      address = db_address;
      last_synced_at = now;
      entry_count = snapshot.entry_count;
      last_record = snapshot.last_record;
      snapshot_source = snapshot.source;
    } in
    elim existing [
      | none ↦ fresh
      | some old ↦
          if has_entries old.entry_count && is_empty_count snapshot.entry_count
          then record old { last_synced_at = now }
          else fresh
    ]

unfoldable pub record_sync_proof : Service → Text → ℕ → Snapshot → Service
unfolding next_proof
record_sync_proof service db_address now snapshot = record service {
  pinned_databases_by_address =
      Map.set db_address
        (next_proof (Map.get db_address service.pinned_databases_by_address) db_address now
          snapshot)
        service.pinned_databases_by_address;
}
