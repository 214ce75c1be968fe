-- ===== src/Snapshot/Membership.antt =====
-- src/services/database.ts, `hasLocalOrbitDBEntry`: whether an entry is in the local contents of an
-- open database.
use Prim.Native.String.{String}
use orbitdb_relay.Prelude.{
  ℕ, ◌+◌, Text, codes, Bool, true, false, Option, none, some, List, [], any, length, if◌then◌else◌,
  leb, ◌&&◌,
}
use orbitdb_relay.Values.{Value, is_text}
use orbitdb_relay.Media.{at}
use orbitdb_relay.Snapshot.{
  Listing, Walk, Contents, scan_limit, is_object, rows, no_array, fails, done, throws, entry,
}

-- `PinningHasEntryResult`: `none` is null.
pub record HasEntryResult : Type 0 where
  pub ok : Bool
  pub has_entry : Option Bool
  pub entry_count : Option ℕ
  pub error : Option Text
  pub source : Text

abbrev pub matches : Text → Value → Bool
matches entry_hash row = is_object row && is_text entry_hash (at "hash" row)

-- The loop over `db.iterator()` of the membership test, and what follows it.
abbrev pub not_found : ℕ → ℕ → HasEntryResult
not_found limit count = record {
  ok = true;
  has_entry = if leb limit count then none else some false;
  entry_count = some count;
  error = none;
  source = if leb limit count then codes "iterator (stopped at 100k)" else codes "iterator";
}

unfoldable pub walk_has_entry : Text → ℕ → ℕ → Walk → HasEntryResult
walk_has_entry entry_hash limit count done = not_found limit count
walk_has_entry entry_hash limit count (throws e) = record {
  ok = false;
  has_entry = none;
  entry_count = none;
  error = some e;
  source = codes "iterator error";
}
walk_has_entry entry_hash limit count (entry v walk) =
    let further = walk_has_entry entry_hash limit (count + 1) walk in
    if matches entry_hash v
    then record {
      ok = true;
      has_entry = some true;
      entry_count = some (count + 1);
      error = none;
      source = codes "iterator";
    }
    else if leb limit (count + 1)
    then not_found limit (count + 1)
    else further

abbrev pub rows_have_entry : Text → List Value → HasEntryResult
rows_have_entry entry_hash vs = record {
  ok = true;
  has_entry = some (any (matches entry_hash) vs);
  entry_count = some (length vs);
  error = none;
  source = codes "db.all()";
}

unfoldable pub listing_has_entry : Text → Listing → HasEntryResult
listing_has_entry entry_hash (rows vs) = rows_have_entry entry_hash vs
listing_has_entry entry_hash no_array = rows_have_entry entry_hash []
listing_has_entry entry_hash (fails e) = record {
  ok = false;
  has_entry = none;
  entry_count = none;
  error = some e;
  source = codes "db.all() error";
}

abbrev pub cannot_tell : String → HasEntryResult
cannot_tell source_ = record {
  ok = true;
  has_entry = none;
  entry_count = none;
  error = none;
  source = codes source_;
}

unfoldable pub contents_have_entry : Text → Option Listing → Option Walk → HasEntryResult
contents_have_entry entry_hash (some listing) iterator = listing_has_entry entry_hash listing
contents_have_entry entry_hash none (some walk) = walk_has_entry entry_hash scan_limit 0 walk
contents_have_entry entry_hash none none =
    cannot_tell "database exposes neither all() nor iterator()"

-- The argument is what `pinnedOpenDatabases` holds at the address.
unfoldable pub has_local_orbit_db_entry : Option Contents → Text → HasEntryResult
has_local_orbit_db_entry none entry_hash = cannot_tell "database-not-open"
has_local_orbit_db_entry (some db) entry_hash = contents_have_entry entry_hash db.all db.iterator
