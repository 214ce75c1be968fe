-- ===== src/Http/Gateway.antt =====
-- src/http/pinning-http.ts, `streamNetworkFallback`: content that is fetched over libp2p. What
-- Helia gives is an argument: the file's entry, the chunks of its content and the error that ends
-- them, if one does. An error reply throws once a chunk is written, because the headers are sent
-- with it.
pub mod Laws
mod Tests
use orbitdb_relay.Prelude.{
  ℕ, ◌+◌, Text, Bytes, codes, includes, Bool, true, false, Option, none, some, List, [], ◌∷◌, ◌&&◌,
  ◌||◌, not, map, if◌then◌else◌, leb, ◌==◌,
}
use orbitdb_relay.OnDemand.{Entry, file, directory}
use orbitdb_relay.Http.Messages.{Called, returns, throws}

-- What `toLowerCase` does to a code unit that it makes a letter of ASCII; 0x212a is the Kelvin
-- sign.
abbrev pub to_lower : ℕ → ℕ
to_lower c = if leb 65 c && leb c 90 then c + 32 else if c == 0x212a then 107 else c

abbrev pub includes_lower : Text → Text → Bool
includes_lower message part = includes (map to_lower message) part

-- Fetching a CID: whether its text is one, `stat` of the path, and `cat`, which ends with an error
-- or not.
pub record Fetch : Type 0 where
  pub is_cid : Bool
  pub stat : Called Entry
  pub chunks : List Bytes
  pub ends : Option Text

-- What becomes of the response: an error reply, or the chunks that are written with the end of the
-- response; its destruction; or an exception of the handler, with the response left open.
pub data Delivered : Type 0 where
  replies : ℕ → Text → Text → Delivered
  delivers breaks rejects : List Bytes → Delivered

-- The errors that have a reply of their own.
unfoldable pub known_error : Text → Option (ℕ × Text × Text)
known_error message =
    if includes_lower message (codes "abort")
    then some (504, codes "gateway_timeout", codes "Timed out while fetching CID over libp2p")
    else if includes message (codes "ERR_NOT_FOUND")
        || includes_lower message (codes "not found")
        || includes_lower message (codes "missing block")
        || includes_lower message (codes "no links named")
    then some (404, codes "content_not_found", codes "Content not found on relay or network")
    else none

-- The `catch`, with the chunks that are written.
unfoldable pub after_error : List Bytes → Text → Delivered
unfolding known_error
after_error [] message = elim (known_error message) [
  | some (status, code, error) ↦ replies status code error
  | none ↦ replies 502 (codes "internal_error") message
]
after_error (chunk ∷ written) message = elim (known_error message) [
  | some reply ↦ rejects (chunk ∷ written)
  | none ↦ breaks (chunk ∷ written)
]

abbrev pub write_all : List Bytes → Option Text → Delivered
write_all chunks none = delivers chunks
write_all chunks (some message) = after_error chunks message

unfoldable pub fetch_content : Called Entry → List Bytes → Option Text → Delivered
unfolding after_error
fetch_content (throws message) chunks ends = after_error [] message
fetch_content (returns directory) chunks ends =
    replies 400 (codes "directory_path_required")
      (codes "Directory download is not supported; specify a file path under the CID")
fetch_content (returns file) chunks ends = write_all chunks ends

unfoldable pub stream_network_fallback : Fetch → Delivered
unfolding fetch_content
stream_network_fallback fetch =
    if not fetch.is_cid
    then replies 400 (codes "invalid_cid") (codes "Invalid CID")
    else fetch_content fetch.stat fetch.chunks fetch.ends

-- What the client has of the content, and whether the response tells it that this is all.
abbrev pub written : Delivered → List Bytes
written (replies status code error) = []
written (delivers chunks) = chunks
written (breaks chunks) = chunks
written (rejects chunks) = chunks

abbrev pub is_complete : Delivered → Bool
is_complete (delivers chunks) = true
is_complete _ = false

abbrev pub is_left_open : Delivered → Bool
is_left_open (rejects chunks) = true
is_left_open _ = false
