-- ===== src/Http/Tests.antt =====
-- Requests to the endpoints of src/http/pinning-http.ts.
use orbitdb_relay.Prelude.{
  ℕ, Text, codes, true, false, Option, some, none, [], ◌∷◌, ◌++◌, ◌≡◌, refl, All,
}
use orbitdb_relay.Values.{obj, str, field, end}
use orbitdb_relay.Service.{PinnedDatabaseRecord}
use orbitdb_relay.Http.{json, parse_ipfs_request, wants, join_slashes}
use orbitdb_relay.Http.Routes.{handle_request}
use orbitdb_relay.Http.Messages.{Handlers, Options, Request, pinned_only}
use orbitdb_relay.Http.Laws.{handle_request-blank}
use orbitdb_relay.Http.Blank.{blank_pinning}
use orbitdb_relay.Http.Paths.{IsSegment, path_under, parse_ipfs_request-join}

abbrev decode : Text → Option Text
decode s = some s

abbrev to_iso : ℕ → Text
to_iso time = codes "2026"

abbrev secret : PinnedDatabaseRecord
secret = record {
  address = codes "/orbitdb/a";
  last_synced_at = 1;
  entry_count = some 1;
  last_record =
      some
        (field (codes "hash") (str (codes "h")) (field (codes "value") (str (codes "diary")) end));
  snapshot_source = codes "db.all()";
}

abbrev handlers : Handlers
handlers = record {
  stats = end;
  databases = (codes "/orbitdb/a", secret) ∷ [];
  sync_database = λ db_address. none;
  has_entry = none;
  stream_pinned_cid = none;
}

abbrev options : Options
options = record {
  gateway_enabled = true;
  fallback_mode = pinned_only;
  has_helia = true;
  exposed = false;
  sync_timeout = codes "120000";
}

abbrev listing : Request
listing = record {
  method = codes "GET";
  url = some (codes "/pinning/databases");
  query = [];
  body = json (obj end);
}

handle_request-blank_example :
    handle_request decode to_iso end end options (blank_pinning (some handlers)) listing
    ≡ handle_request decode to_iso end end options (some handlers) listing
handle_request-blank_example =
    handle_request-blank decode to_iso end end options (some handlers) listing refl

abbrev gateway : Request
gateway = record {
  method = codes "GET";
  url = some (codes "/ipfs/bafy");
  query = [];
  body = json (obj end);
}

segments : All (IsSegment decode) (codes "bafy" ∷ codes "a.png" ∷ [])
segments = ((λ e. cc, refl, refl), ((λ e. cc, refl, refl), tt))

parse_ipfs_request-join_example :
    parse_ipfs_request decode
      (codes "GET")
      (some (codes "/ipfs/" ++ join_slashes (codes "bafy" ∷ codes "a.png" ∷ [])))
    ≡ wants (codes "bafy") (path_under (codes "a.png" ∷ []))
parse_ipfs_request-join_example =
    parse_ipfs_request-join decode (codes "bafy") (codes "a.png" ∷ []) segments
