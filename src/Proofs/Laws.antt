-- ===== src/Proofs/Laws.antt =====
-- The history of a sync proof of src/services/database.ts.
use orbitdb_relay.Prelude.{
  ℕ, Text, text_eq, Option, none, some, List, [], ◌∷◌, if◌then◌else◌, ◌≡◌, refl, arith, ◌∙◌,
  text_eq_iff, ap, inl, inr, Bool-cases,
}
use orbitdb_relay.Prelude.Map
use orbitdb_relay.Prelude.Map.{Map}
use orbitdb_relay.Service.{Service, PinnedDatabaseRecord}
use orbitdb_relay.Snapshot.{Snapshot}
use orbitdb_relay.Proofs.{has_entries, next_proof, record_sync_proof}

-- One recording: the address, the time and the snapshot.
abbrev pub Recording : Type 0
Recording = Text × ℕ × Snapshot

abbrev pub record_all : Service → List Recording → Service
record_all service [] = service
record_all service ((a, now, snapshot) ∷ rs) =
    record_all (record_sync_proof service a now snapshot) rs

-- The contents of a proof, without its time.
abbrev pub contents : PinnedDatabaseRecord → Snapshot
contents r = record {
  entry_count = r.entry_count;
  last_record = r.last_record;
  source = r.snapshot_source;
}

-- What a history of recordings leaves at one address, by a rule that looks at snapshots only: the
-- latest snapshot that counts entries; until there is one, the latest snapshot.
abbrev pub best : Option Snapshot → Snapshot → Snapshot
best none new = new
best (some old) new =
    if has_entries new.entry_count then new else if has_entries old.entry_count then old else new

abbrev pub best_of : Text → Option Snapshot → List Recording → Option Snapshot
best_of a old [] = old
best_of a old ((b, now, snapshot) ∷ rs) =
    best_of a (if text_eq b a then some (best old snapshot) else old) rs

abbrev pub summary : Option PinnedDatabaseRecord → Option Snapshot
summary none = none
summary (some r) = some (contents r)

abbrev pub proof_at : Service → Text → Option Snapshot
proof_at service a = summary (Map.get a service.pinned_databases_by_address)

contents-next_proof :
    (old : Option PinnedDatabaseRecord) (a : Text) (now : ℕ) (snapshot : Snapshot)
    → contents (next_proof old a now snapshot) ≡ best (summary old) snapshot
unfolding next_proof
contents-next_proof none a now snapshot = refl
contents-next_proof (some r) a now snapshot = ground arith

proof-record :
    (service : Service) (b a : Text) (now : ℕ) (snapshot : Snapshot)
    → proof_at (record_sync_proof service b now snapshot) a
      ≡ (if text_eq b a then some (best (proof_at service a) snapshot) else proof_at service a)
unfolding record_sync_proof
proof-record service b a now snapshot =
    let proofs = service.pinned_databases_by_address in
    let new = next_proof (Map.get b proofs) b now snapshot in
    rw (Map.get-set a b new proofs) (elim (Bool-cases (text_eq b a)) [
      | inl same ↦
          rw (same, (text_eq_iff b a).0 same)
            (ap some (contents-next_proof (Map.get a proofs) a now snapshot))
      | inr other ↦ rw other refl
    ])

-- Whatever syncs record, in whatever order and for whatever databases, the proof of a database
-- holds the count, last record and source of its latest snapshot that counted entries; until there
-- is one, of its latest snapshot. In particular a later burst, empty scan or failed count never
-- replaces a proof that counts entries, and syncs of other databases do not touch it.
pub proof-record_all :
    (service : Service) (a : Text) (rs : List Recording)
    → proof_at (record_all service rs) a ≡ best_of a (proof_at service a) rs
proof-record_all service a [] = refl
proof-record_all service a ((b, now, snapshot) ∷ rs) =
    proof-record_all (record_sync_proof service b now snapshot) a rs
    ∙ ap (λ p. best_of a p rs) (proof-record service b a now snapshot)
