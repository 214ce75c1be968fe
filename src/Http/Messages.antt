-- ===== src/Http/Messages.antt =====
-- src/http/pinning-http.ts: requests, replies, and what the handlers of the HTTP API answer.
use orbitdb_relay.Prelude.{ℕ, Text, Bool, Option, none, some, List, [], ◌∷◌}
use orbitdb_relay.Prelude.Map.{Map}
use orbitdb_relay.Values.{Value, null, bool, num, str, obj, Items, nil, cons, Fields}
use orbitdb_relay.Service.{PinnedDatabaseRecord}
use orbitdb_relay.Snapshot.Membership.{HasEntryResult}
use orbitdb_relay.Http.{Body}

pub data Reply : Type 0 where
  no_content : Reply
  sends : Fields → Reply
  fails : ℕ → Text → Text → Reply
  streams : Text → Reply
  fetches : Text → Option Text → Reply
  not_found : Reply

-- What `syncDatabase` comes back with in time.
pub record SyncAnswer : Type 0 where
  pub ok : Bool
  pub error : Option Text
  pub received_update : Bool
  pub fallback_scan_used : Bool
  pub extracted_media_cids : List Text
  pub entry_count : Option ℕ
  pub last_record : Option Fields
  pub snapshot_source : Option Text
  pub coalesced : Bool

-- How a call of an asynchronous handler ends.
pub data Called (A : Type 0) : Type 0 where
  returns : A → Called A
  throws : Text → Called A

pub data PinnedContent : Type 0 where
  content : Option Text → PinnedContent
  unavailable : ℕ → Text → PinnedContent

-- `PinningHttpHandlers`; `stats` is what `getStats` gives, `databases` the records that it holds. A
-- sync gives none if it does not end within the timeout.
pub record Handlers : Type 0 where
  pub stats : Fields
  pub databases : Map PinnedDatabaseRecord
  pub sync_database : Text → Option (Called SyncAnswer)
  pub has_entry : Option (Text → Text → Called HasEntryResult)
  pub stream_pinned_cid : Option (Text → Option Text → PinnedContent)

pub data FallbackMode : Type 0 where
  pinned_only pinned_first_network_fallback : FallbackMode

-- The options but for `pinning`, which the routes take by itself.
pub record Options : Type 0 where
  pub gateway_enabled : Bool
  pub fallback_mode : FallbackMode
  pub has_helia : Bool
  pub exposed : Bool
  pub sync_timeout : Text

pub record Request : Type 0 where
  pub method : Text
  pub url : Option Text
  pub query : Map Text
  pub body : Body

abbrev pub number_or_null : Option ℕ → Value
number_or_null none = null
number_or_null (some n) = num n

abbrev pub object_or_null : Option Fields → Value
object_or_null none = null
object_or_null (some fs) = obj fs

abbrev pub text_or_null : Option Text → Value
text_or_null none = null
text_or_null (some s) = str s

abbrev pub bool_or_null : Option Bool → Value
bool_or_null none = null
bool_or_null (some b) = bool b

-- `s || otherwise`
abbrev pub text_or : Option Text → Text → Text
text_or none otherwise = otherwise
text_or (some []) otherwise = otherwise
text_or (some (c ∷ s)) otherwise = c ∷ s

unfoldable pub texts : List Text → Items
texts [] = nil
texts (s ∷ ss) = cons (str s) (texts ss)
