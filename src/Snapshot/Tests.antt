-- ===== src/Snapshot/Tests.antt =====
-- The reads of a database in src/services/database.ts on concrete contents.
use orbitdb_relay.Prelude.{Text, codes, text_eq, false, some, none, [], ◌∷◌, ◌≡◌, refl}
use orbitdb_relay.Values.{Value, str, obj, field, end, lookup}
use orbitdb_relay.Snapshot.{
  Contents, rows, entry, throws, snapshot_local_state_after_sync, snapshot_contents,
  snapshot_listing, snapshot_rows,
}
use orbitdb_relay.Snapshot.Membership.{
  has_local_orbit_db_entry, walk_has_entry, contents_have_entry, listing_has_entry,
}
use orbitdb_relay.Snapshot.Laws.{database_knows, has_entry_truthful}

abbrev row : Value
row = obj (field (codes "hash") (str (codes "h1")) end)

abbrev listed : Contents
listed = record { all = some (rows (row ∷ [])); iterator = none }

-- The iterator throws behind its first entry.
abbrev broken : Contents
broken = record { all = none; iterator = some (entry row (throws (codes "gone"))) }

has_entry_truthful_example :
    (has_local_orbit_db_entry (some broken) (codes "h2")).has_entry
    ≡ database_knows (some broken) (codes "h2")
has_entry_truthful_example = has_entry_truthful (some broken) (codes "h2")

cannot_know : (has_local_orbit_db_entry (some broken) (codes "h2")).has_entry ≡ none
unfolding has_local_orbit_db_entry contents_have_entry walk_has_entry lookup text_eq
cannot_know = refl

answers : (has_local_orbit_db_entry (some listed) (codes "h2")).has_entry ≡ some false
unfolding has_local_orbit_db_entry contents_have_entry listing_has_entry lookup text_eq
answers = refl

abbrev print : Value → Text
print v = codes "{…}"

counts : (snapshot_local_state_after_sync print print listed [] false).entry_count ≡ some 1
unfolding snapshot_local_state_after_sync snapshot_contents snapshot_listing snapshot_rows
counts = refl
