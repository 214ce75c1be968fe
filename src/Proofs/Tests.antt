-- ===== src/Proofs/Tests.antt =====
-- The sync proofs of src/services/database.ts on concrete snapshots.
use orbitdb_relay.Prelude.{codes, some, none, List, [], ◌∷◌, ◌≡◌}
use orbitdb_relay.Service.{new_service}
use orbitdb_relay.Snapshot.{Snapshot}
use orbitdb_relay.Proofs.Laws.{Recording, record_all, proof_at, best_of, proof-record_all}

abbrev counted_two : Snapshot
counted_two = record { entry_count = some 2; last_record = none; source = codes "db.all()" }

abbrev burst : Snapshot
burst = record {
  entry_count = none;
  last_record = none;
  source = codes "update-event burst only (n=1)";
}

abbrev recordings : List Recording
recordings = (codes "/orbitdb/a", 1, counted_two) ∷ (codes "/orbitdb/a", 2, burst) ∷ []

proof-record_all_example :
    proof_at (record_all new_service recordings) (codes "/orbitdb/a")
    ≡ best_of (codes "/orbitdb/a") (proof_at new_service (codes "/orbitdb/a")) recordings
proof-record_all_example = proof-record_all new_service (codes "/orbitdb/a") recordings
