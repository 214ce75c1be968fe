-- ===== src/Snapshot/Laws.antt =====
-- Theorems about the membership test and the snapshots of src/services/database.ts.
use orbitdb_relay.Prelude.{
  ℕ, ◌+◌, ◌<◌, Text, zero, suc, take, ltb, ◌&&◌, if◌then◌else◌, Bool, true, false, Option, none,
  some, List, [], ◌∷◌, any, length, min, ◌≡◌, ap, codes, text_eq, refl, arith, ◌⊎◌, inl, inr,
}
use orbitdb_relay.Values.{Value, null, obj, arr, str, lookup}
use orbitdb_relay.Snapshot.{
  Listing, rows, no_array, fails, Walk, done, throws, entry, Contents, scan_limit, walk_snapshot,
  snapshot_rows, snapshot_listing, snapshot_walk, snapshot_contents,
  snapshot_local_state_after_sync,
}
use orbitdb_relay.Snapshot.Membership.{
  matches, walk_has_entry, listing_has_entry, contents_have_entry, has_local_orbit_db_entry,
}

-- The entries of a walk, in order, up to its end or its exception.
abbrev pub walk_entries : Walk → List Value
walk_entries done = []
walk_entries (throws e) = []
walk_entries (entry v walk) = v ∷ walk_entries walk

-- Everything that a database holds, by the method through which it is read.
abbrev pub held_rows : Listing → List Value
held_rows (rows vs) = vs
held_rows _ = []

abbrev pub held : Option Listing → Option Walk → List Value
held (some listing) iterator = held_rows listing
held none (some walk) = walk_entries walk
held none none = []

-- The walk reaches its end without an exception.
abbrev pub ends : Walk → Bool
ends done = true
ends (throws e) = false
ends (entry v walk) = ends walk

-- The row is an object whose `hash` is this text.
abbrev pub has_hash : Text → Value → Bool
has_hash h (obj fs) = elim (lookup (codes "hash") fs) [ str s ↦ text_eq s h | _ ↦ false ]
has_hash h _ = false

matches-has_hash : (h : Text) (v : Value) → matches h v ≡ has_hash h v
matches-has_hash h (obj fs) = refl
matches-has_hash h (arr vs) = refl
matches-has_hash h _ = refl

any-matches : (h : Text) (vs : List Value) → any (matches h) vs ≡ any (has_hash h) vs
any-matches h [] = refl
any-matches h (v ∷ vs) = ground (arith, matches-has_hash h v, any-matches h vs)

-- What can be known of a walk by its first `limit` entries.
abbrev pub walk_knows : ℕ → Text → Walk → Option Bool
walk_knows limit h walk =
    if any (has_hash h) (take limit (walk_entries walk))
    then some true
    else if ends walk && ltb (length (walk_entries walk)) limit
    then some false
    else none

-- What can be known of whether an entry of a database has the hash.
abbrev pub knows : Text → Option Listing → Option Walk → Option Bool
knows h (some (rows vs)) iterator = some (any (has_hash h) vs)
knows h (some no_array) iterator = some false
knows h (some (fails e)) iterator = none
knows h none (some walk) = walk_knows 100_000 h walk
knows h none none = none

abbrev pub database_knows : Option Contents → Text → Option Bool
database_knows none h = none
database_knows (some db) h = knows h db.all db.iterator

walk_has_entry-knows :
    (h : Text) (limit count n : ℕ) (walk : Walk)
    → count + suc n ≡ limit
    → (walk_has_entry h limit count walk).has_entry ≡ walk_knows (suc n) h walk
unfolding walk_has_entry
walk_has_entry-knows h limit count n done e = ground (arith, e)
walk_has_entry-knows h limit count n (throws m) e = ground arith
walk_has_entry-knows h limit count zero (entry v walk) e = ground (arith, e, matches-has_hash h v)
walk_has_entry-knows h limit count (suc n) (entry v walk) e = ground (
  arith,
  e,
  matches-has_hash h v,
  walk_has_entry-knows h limit (count + 1) n walk (omega (arith, e)),
)

contents_have_entry-knows :
    (h : Text) (listing : Option Listing) (walk : Option Walk)
    → (contents_have_entry h listing walk).has_entry ≡ knows h listing walk
unfolding contents_have_entry listing_has_entry
contents_have_entry-knows h (some (rows vs)) walk = ap some (any-matches h vs)
contents_have_entry-knows h (some no_array) walk = refl
contents_have_entry-knows h (some (fails m)) walk = refl
contents_have_entry-knows h none (some walk) =
    walk_has_entry-knows h scan_limit 0 99_999 walk (omega arith)
contents_have_entry-knows h none none = refl

-- What the membership test answers for every database. Of the rows of `all()`, or where there is no
-- `all()` of the first 100,000 entries of the iterator, it answers true if one has the hash. It
-- answers false if none has and that is everything: all rows, or the entries of an iterator that
-- ends before the limit; a listing that is no array has none. In every other case it answers null:
-- the database is not open or has neither method, `all()` throws, or the iterator throws or reaches
-- the limit and no entry up to there has the hash.
pub has_entry_truthful :
    (db : Option Contents) (h : Text)
    → (has_local_orbit_db_entry db h).has_entry ≡ database_knows db h
unfolding has_local_orbit_db_entry
has_entry_truthful none h = refl
has_entry_truthful (some db) h = contents_have_entry-knows h db.all db.iterator

module _ (preview to_text : Value → Text) where
  walk_count :
      (limit count n : ℕ) (newest : Value) (walk : Walk)
      → count < limit
      → (walk_snapshot preview to_text limit count newest walk).entry_count ≡ some n
      → n ≡ min limit (count + length (walk_entries walk))
  unfolding walk_snapshot
  walk_count limit count n newest done l e = ground arith
  walk_count limit count n newest (throws m) l e = cc
  walk_count limit count n newest (entry v walk) l e =
      ground (arith, walk_count limit (count + 1) n v walk)

  -- The number of entries that a snapshot may report.
  abbrev pub counted : Option Listing → Option Walk → ℕ
  counted (some listing) walk = length (held_rows listing)
  counted none walk = min scan_limit (length (held none walk))

  contents_count :
      (listing : Option Listing) (walk : Option Walk) (n : ℕ)
      → (snapshot_contents preview to_text (record { all = listing; iterator = walk })).entry_count
        ≡ some n
      → n ≡ counted listing walk
  unfolding snapshot_contents snapshot_listing snapshot_rows snapshot_walk
  contents_count (some (rows vs)) walk n e = ground arith
  contents_count (some no_array) walk n e = ground arith
  contents_count (some (fails m)) walk n e = cc
  contents_count none (some walk) n e =
      omega (arith, walk_count scan_limit 0 n null walk (omega arith) e)
  contents_count none none n e = cc

  -- A snapshot that reports a number of entries reports the right one: all rows of `all()`, or
  -- the entries of the iterator up to 100,000. After an update burst it reports none.
  pub snapshot_count :
      (db : Contents) (updates : List Value) (received : Bool) (n : ℕ)
      → (snapshot_local_state_after_sync preview to_text db updates received).entry_count ≡ some n
      → (n ≡ counted db.all db.iterator) × ((received ≡ false) ⊎ (updates ≡ []))
  unfolding snapshot_local_state_after_sync
  snapshot_count db [] true n e = (contents_count db.all db.iterator n e, inr refl)
  snapshot_count db [] false n e = (contents_count db.all db.iterator n e, inr refl)
  snapshot_count db (u ∷ updates) true n e = absurd (ground arith)
  snapshot_count db (u ∷ updates) false n e = (contents_count db.all db.iterator n e, inl refl)
