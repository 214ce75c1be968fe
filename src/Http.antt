-- ===== src/Http.antt =====
-- src/http/pinning-http.ts: reading a request. The query pairs of the URL, `decodeURIComponent` and
-- the parser of JSON bytes are arguments; `none` stands for their exceptions.
pub mod Bodies
pub mod Blank
pub mod Gateway
pub mod Listing
pub mod Messages
pub mod Routes
pub mod Laws
pub mod Paths
mod Tests
use orbitdb_relay.Prelude.{
  ℕ, ◌+◌, Text, Bytes, codes, text_eq, starts_with, slice_from, Bool, true, false, Option, none,
  some, List, [], ◌∷◌, ◌++◌, ◌&&◌, ◌||◌, not, filter, if◌then◌else◌, get_or, ltb, length, ◌==◌,
}
use orbitdb_relay.Prelude.Map
use orbitdb_relay.Prelude.Map.{Map}
use orbitdb_relay.Prelude.TextSet
use orbitdb_relay.Values.{Value, str, obj, end}
use orbitdb_relay.Media.{at, decimal}
use orbitdb_relay.Peers.{is_empty}
use orbitdb_relay.Exposure.{trim}

abbrev pub max_json_body_bytes : ℕ
max_json_body_bytes = 16_384

unfoldable pub before_query : Text → Text
before_query [] = []
before_query (c ∷ s) = let rest = before_query s in if c == 63 then [] else c ∷ rest

unfoldable pub pathname_only : Option Text → Text
unfolding before_query
pathname_only none = codes "/"
pathname_only (some url) = if is_empty (before_query url) then codes "/" else before_query url

unfoldable pub first_search_param : Map Text → List Text → Text
first_search_param query [] = []
first_search_param query (name ∷ names) =
    let rest = first_search_param query names in
    let value = trim (get_or (Map.get name query) []) in if is_empty value then rest else value

-- `typeof body?.k === 'string' ? body.k.trim() : ''`
abbrev pub trimmed_text : Value → Text
trimmed_text (str s) = trim s
trimmed_text _ = []

-- The field of the body, or else the first query parameter that is not blank.
unfoldable pub param : Value → Text → Map Text → List Text → Text
unfolding first_search_param
param body_field key query names =
    if is_empty (trimmed_text body_field)
    then first_search_param query names
    else trimmed_text body_field

-- What `readJsonBody` gives: a value, or an exception.
pub data Body : Type 0 where
  json : Value → Body
  invalid_json : Body
  too_large : Body

-- The loop over the chunks: `none` when they are too large together.
unfoldable pub read_chunks : Bytes → List Bytes → Option Bytes
read_chunks read [] = some read
read_chunks read (chunk ∷ chunks) =
    let rest = read_chunks (read ++ chunk) chunks in
    if ltb max_json_body_bytes (length (read ++ chunk)) then none else rest

abbrev pub parsed_body : Option Value → Body
parsed_body none = invalid_json
parsed_body (some v) = json v

unfoldable pub read_json_body : (Bytes → Option Value) → List Bytes → Body
unfolding read_chunks
read_json_body parse_bytes [] = json (obj end)
read_json_body parse_bytes (chunk ∷ chunks) = elim (read_chunks [] (chunk ∷ chunks)) [
  | none ↦ too_large
  | some bytes ↦ parsed_body (parse_bytes bytes)
]

abbrev pub push_front : ℕ → List Text → List Text
push_front c [] = (c ∷ []) ∷ []
push_front c (part ∷ parts) = (c ∷ part) ∷ parts

-- `s.split('/')`
unfoldable pub split_slashes : Text → List Text
split_slashes [] = [] ∷ []
split_slashes (c ∷ s) =
    let rest = split_slashes s in if c == 47 then [] ∷ rest else push_front c rest

unfoldable pub join_slashes : List Text → Text
join_slashes [] = []
join_slashes (part ∷ []) = part
join_slashes (part ∷ other ∷ parts) = part ++ 47 ∷ join_slashes (other ∷ parts)

pub data Parsed : Type 0 where
  unhandled : Parsed
  refused : ℕ → Text → Text → Parsed
  wants : Text → Option Text → Parsed

unfoldable pub decode_all : (Text → Option Text) → List Text → Option (List Text)
decode_all decode [] = some []
decode_all decode (part ∷ parts) = elim (decode part) [
  | none ↦ none
  | some decoded ↦ elim (decode_all decode parts) [
    | none ↦ none
    | some rest ↦ some (decoded ∷ rest)
  ]
]

unfoldable pub wanted : Option (List Text) → Parsed
unfolding join_slashes
wanted none = refused 400 (codes "invalid_path_encoding") (codes "Invalid path encoding")
wanted (some []) = refused 400 (codes "bad_request") (codes "Missing CID")
wanted (some (cid ∷ [])) = wants cid none
wanted (some (cid ∷ part ∷ parts)) = wants cid (some (join_slashes (part ∷ parts)))

unfoldable pub path_parts : Text → List Text
unfolding split_slashes
path_parts path = filter (λ part. not (is_empty part)) (split_slashes path)

unfoldable pub parse_ipfs_request : (Text → Option Text) → Text → Option Text → Parsed
unfolding pathname_only path_parts decode_all wanted
parse_ipfs_request decode method url =
    if not (text_eq method (codes "GET"))
    then unhandled
    else if not (starts_with (pathname_only url) (codes "/ipfs/"))
    then unhandled
    else wanted (decode_all decode (path_parts (slice_from (pathname_only url) 6)))

unfoldable pub is_managed_pinning_http_path : Text → Bool
is_managed_pinning_http_path pathname =
    text_eq pathname (codes "/health")
    || text_eq pathname (codes "/multiaddrs")
    || text_eq pathname (codes "/pinning/stats")
    || text_eq pathname (codes "/pinning/databases")
    || text_eq pathname (codes "/pinning/sync")
    || text_eq pathname (codes "/pinning/has-entry")
    || starts_with pathname (codes "/ipfs/")

-- `cors.origin`: all origins, or those listed.
pub data Origins : Type 0 where
  any_origin : Origins
  listed : List Text → Origins

unfoldable pub allow_origin : Origins → Option Text → Option Text
allow_origin any_origin request_origin = some (codes "*")
allow_origin (listed origins) none = none
allow_origin (listed origins) (some origin) =
    if not (is_empty origin) && TextSet.has origin origins then some origin else none

abbrev pub origin_headers : Origins → Option Text → Map Text
origin_headers any_origin (some origin) = (codes "Access-Control-Allow-Origin", origin) ∷ []
origin_headers (listed origins) (some origin) =
    (codes "Vary", codes "Origin") ∷ (codes "Access-Control-Allow-Origin", origin) ∷ []
origin_headers _ none = []

unfoldable pub join_commas : List Text → Text
join_commas [] = []
join_commas (part ∷ []) = part
join_commas (part ∷ other ∷ parts) = part ++ codes ", " ++ join_commas (other ∷ parts)

abbrev pub header_list : List Text → Text
header_list [] = codes "Content-Type, Authorization"
header_list (h ∷ hs) = join_commas (h ∷ hs)

unfoldable pub apply_cors_headers : Origins → List Text → Option ℕ → Option Text → Map Text
unfolding allow_origin join_commas
apply_cors_headers origins allow_headers max_age_seconds request_origin =
    origin_headers origins (allow_origin origins request_origin)
    ++ (codes "Access-Control-Allow-Methods", codes "GET, POST, OPTIONS, HEAD")
      ∷ (codes "Access-Control-Allow-Headers", header_list allow_headers)
      ∷ (codes "Access-Control-Max-Age", decimal (get_or max_age_seconds 86400))
      ∷ []
