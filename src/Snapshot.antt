-- ===== src/Snapshot.antt =====
-- src/services/database.ts, what a sync reads back from a database: the snapshot of its local state
-- and the membership test of `POST /pinning/has-entry`. What `db.all()` and `db.iterator()` give is
-- an argument; so is `util.inspect`, by which the log previews are made.
mod Tests
pub mod Membership
pub mod Laws
use Prim.Native.String.{String}
use orbitdb_relay.Prelude.{
  ℕ, zero, suc, ◌+◌, Text, codes, text_eq, Bool, true, false, ◌||◌, Option, none, some, List, [],
  ◌∷◌, ◌++◌, map, any, last, length, if◌then◌else◌, leb, ltb, take, ◌&&◌, not,
}
use orbitdb_relay.Values.{
  Value, undefined, null, bool, num, str, arr, obj, Items, Fields, end, field, lookup, member,
  coalesce, truthy, is_text,
}
use orbitdb_relay.Media.{at, decimal}

-- What `await db.all()` gives: an array, another value, or an exception with its message.
pub data Listing : Type 0 where
  rows : List Value → Listing
  no_array : Listing
  fails : Text → Listing

-- What `for await (… of db.iterator())` meets: entries, then the end or an exception.
pub data Walk : Type 0 where
  done : Walk
  throws : Text → Walk
  entry : Value → Walk → Walk

-- An open database as far as it is read here: `none` where the method does not exist.
pub record Contents : Type 0 where
  pub all : Option Listing
  pub iterator : Option Walk

-- `DatabaseSyncSnapshot`
pub record Snapshot : Type 0 where
  pub entry_count : Option ℕ
  pub last_record : Option Fields
  pub source : Text

abbrev pub scan_limit : ℕ
scan_limit = 100_000

-- `v == null`
abbrev pub is_nullish : Value → Bool
is_nullish undefined = true
is_nullish null = true
is_nullish _ = false

abbrev pub is_object : Value → Bool
is_object (arr xs) = true
is_object (obj fs) = true
is_object _ = false

-- `k in v`
unfoldable pub has_key : Text → Fields → Bool
has_key k end = false
has_key k (field j v fs) = if text_eq j k then true else has_key k fs

abbrev pub carries : String → Value → Bool
carries k (obj fs) = has_key (codes k) fs
carries k _ = false

-- `if (v[k] != null) out[k] = v[k]`, in front of the fields that follow.
abbrev pub keep : String → Value → Fields → Fields
keep k v out = if is_nullish (at k v) then out else field (codes k) (at k v) out

-- `rows.length > 0 ? rows[rows.length - 1] : null`
abbrev pub last_or_null : List Value → Value
last_or_null vs = elim (last vs) [ none ↦ null | some v ↦ v ]

module _ (preview : Value → Text) (to_text : Value → Text) where
  unfoldable pub summarize_last_db_row : Value → Fields
  summarize_last_db_row row =
      if is_nullish row
      then field (codes "row") null end
      else if is_object row
      then keep "hash" row (
          keep "key" row (
            if carries "value" row
            then field (codes "value") (str (preview (at "value" row))) end
            else field (codes "entry") (str (preview row)) end))
      else field (codes "row") (str (to_text row)) end

  unfoldable pub summarize_last_iterator_entry : Value → Fields
  summarize_last_iterator_entry e =
      if is_nullish e
      then field (codes "entry") null end
      else if is_object e
      then keep "hash" e (
          keep "key" e (
            keep "id" e (
              keep "clock" e (
                if carries "payload" e || carries "value" e
                then field (codes "value")
                    (str (preview (coalesce (at "payload" e) (at "value" e)))) end
                else field (codes "entry") (str (preview e)) end))))
      else field (codes "entry") (str (to_text e)) end

  -- `typeof id === "string" ? (id.length > 28 ? `${id.slice(0, 28)}…` : id) : (id ?? null)`
  unfoldable pub short_identity : Value → Value
  short_identity (str id) = if ltb 28 (length id) then str (take 28 id ++ 0x2026 ∷ []) else str id
  short_identity id = coalesce id null

  unfoldable pub summarize_last_update_entry : Value → Fields
  summarize_last_update_entry e = field (codes "hash") (coalesce (at "hash" e) null) (
      field (codes "identity") (short_identity (at "identity" e)) (
        field (codes "payloadPreview")
          (str (preview (coalesce (at "payload" e) (coalesce (at "value" e) e)))) end))

  -- What follows the loop over `db.iterator()`, and its `break`.
  abbrev pub walked : ℕ → ℕ → Value → Snapshot
  walked limit count newest = record {
    entry_count = some count;
    last_record = if truthy newest then some (summarize_last_iterator_entry newest) else none;
    source = if leb limit count then codes "iterator (stopped at 100k)" else codes "iterator";
  }

  -- The loop: `count` entries are read, the newest of them last.
  unfoldable pub walk_snapshot : ℕ → ℕ → Value → Walk → Snapshot
  walk_snapshot limit count newest done = walked limit count newest
  walk_snapshot limit count newest (throws e) = record {
    entry_count = none;
    last_record = none;
    source = codes "iterator error: " ++ e;
  }
  walk_snapshot limit count newest (entry v walk) =
      let further = walk_snapshot limit (count + 1) v walk in
      if leb limit (count + 1) then walked limit (count + 1) v else further

  unfoldable pub snapshot_rows : List Value → Snapshot
  snapshot_rows vs = record {
    entry_count = some (length vs);
    last_record =
        if truthy (last_or_null vs) then some (summarize_last_db_row (last_or_null vs)) else none;
    source = codes "db.all()";
  }

  unfoldable pub snapshot_listing : Listing → Snapshot
  snapshot_listing (rows vs) = snapshot_rows vs
  snapshot_listing no_array = snapshot_rows []
  snapshot_listing (fails e) = record {
    entry_count = none;
    last_record = none;
    source = codes "db.all() error: " ++ e;
  }

  unfoldable pub snapshot_walk : Option Walk → Snapshot
  snapshot_walk (some walk) = walk_snapshot scan_limit 0 null walk
  snapshot_walk none = record {
    entry_count = none;
    last_record = none;
    source = codes "unknown (no db.all / iterator / updates)";
  }

  unfoldable pub snapshot_contents : Contents → Snapshot
  snapshot_contents db = elim db.all [
    | some listing ↦ snapshot_listing listing
    | none ↦ snapshot_walk db.iterator
  ]

  unfoldable pub snapshot_local_state_after_sync : Contents → List Value → Bool → Snapshot
  snapshot_local_state_after_sync db updates did_receive_update =
      if did_receive_update && ltb 0 (length updates)
      then record {
        entry_count = none;
        last_record = some (summarize_last_update_entry (last_or_null updates));
        source = codes "update-event burst only (n=" ++ decimal (length updates) ++ codes ")";
      }
      else snapshot_contents db
