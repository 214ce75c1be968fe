-- ===== src/Http/Blank.antt =====
-- What the replies of src/http/pinning-http.ts may publish of a record, and the handlers with no
-- more than that.
use orbitdb_relay.Prelude.{
  codes, text_eq, Bool, true, false, Option, none, some, List, [], ◌∷◌, ◌≡◌, refl, arith, map,
  length,
}
use orbitdb_relay.Prelude.Map.{Map}
use orbitdb_relay.Values.{Fields, lookup, field, end}
use orbitdb_relay.Service.{PinnedDatabaseRecord}
use orbitdb_relay.Exposure.{redact_last_record}
use orbitdb_relay.Http.Messages.{Reply, fetches, Handlers, SyncAnswer, Called, returns, throws}

-- A last record cut down to its hash: it has no other field.
abbrev pub only_hash : Option Fields → Option Fields
only_hash none = none
only_hash (some fs) = some (field (codes "hash") (lookup (codes "hash") fs) end)

pub redact-only_hash :
    (r : Option Fields) → redact_last_record false (only_hash r) ≡ redact_last_record false r
unfolding redact_last_record lookup text_eq
redact-only_hash none = refl
redact-only_hash (some fs) = refl

abbrev pub is_fetch : Reply → Bool
is_fetch (fetches cid path) = true
is_fetch _ = false

-- A record, an answer and the handlers with only the hash of each last record.
abbrev pub blank_record : PinnedDatabaseRecord → PinnedDatabaseRecord
blank_record r = record r { last_record = only_hash r.last_record }

abbrev pub blank_answer : Option (Called SyncAnswer) → Option (Called SyncAnswer)
blank_answer none = none
blank_answer (some (throws e)) = some (throws e)
blank_answer (some (returns r)) =
    some (returns (record r { last_record = only_hash r.last_record }))

unfoldable pub blank_databases : Map PinnedDatabaseRecord → Map PinnedDatabaseRecord
blank_databases [] = []
blank_databases ((a, r) ∷ rs) = (a, blank_record r) ∷ blank_databases rs

abbrev pub blank : Handlers → Handlers
blank h = record h {
  databases = blank_databases h.databases;
  sync_database = λ db_address. blank_answer (h.sync_database db_address);
}

abbrev pub blank_pinning : Option Handlers → Option Handlers
blank_pinning none = none
blank_pinning (some h) = some (blank h)

pub length-map :
    (f : PinnedDatabaseRecord → PinnedDatabaseRecord) (rs : List PinnedDatabaseRecord)
    → length (map f rs) ≡ length rs
length-map f [] = refl
length-map f (r ∷ rs) = omega (arith, length-map f rs)
