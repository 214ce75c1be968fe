-- ===== src/Http/Laws.antt =====
-- Theorems about the request handler of src/http/pinning-http.ts.
use orbitdb_relay.Prelude.{
  ℕ, Text, codes, Bool, false, Option, none, some, List, [], ◌∷◌, ◌≡◌, refl, ap, arith, map,
  Bool-cases, inl, inr, get_or,
}
use orbitdb_relay.Prelude.Map
use orbitdb_relay.Prelude.Map.{Map}
use orbitdb_relay.Values.{Fields}
use orbitdb_relay.Media.{at}
use orbitdb_relay.Service.{PinnedDatabaseRecord}
use orbitdb_relay.Snapshot.Membership.{HasEntryResult}
use orbitdb_relay.Exposure.{trim}
use orbitdb_relay.Peers.{is_empty}
use orbitdb_relay.Http.{
  Body, json, invalid_json, too_large, Parsed, unhandled, refused, wants, parse_ipfs_request, param,
  first_search_param,
}
use orbitdb_relay.Http.Routes.{
  one_found, handle_request, pinning_route, ipfs_reply, other_route, sync_route, sync_reply,
  databases_reply, listed_databases, get_databases, gateway_reply, has_entry_route, has_entry_reply,
  looked_up, pinned_content,
}
use orbitdb_relay.Http.Messages.{
  Handlers, SyncAnswer, Called, returns, throws, Options, Request, pinned_only, PinnedContent,
  content, unavailable,
}
use orbitdb_relay.Http.Blank.{
  redact-only_hash, is_fetch, blank_record, blank_answer, blank_databases, blank, blank_pinning,
  length-map,
}

module _ (decode : Text → Option Text) (to_iso : ℕ → Text) where
  listed-blank :
      (rs : List PinnedDatabaseRecord)
      → listed_databases decode to_iso false (map blank_record rs)
        ≡ listed_databases decode to_iso false rs
  unfolding listed_databases
  listed-blank [] = refl
  listed-blank (r ∷ rs) = rw (listed-blank rs, redact-only_hash r.last_record) refl

  sync_reply-blank :
      (options : Options) (a : Text) (r : Option (Called SyncAnswer))
      → options.exposed ≡ false
      → sync_reply decode to_iso options a (blank_answer r) ≡ sync_reply decode to_iso options a r
  unfolding sync_reply
  sync_reply-blank options a none hidden = refl
  sync_reply-blank options a (some (throws e)) hidden = refl
  sync_reply-blank options a (some (returns r)) hidden =
      rw (hidden, redact-only_hash r.last_record) refl

  get-blank :
      (a : Text) (rs : Map PinnedDatabaseRecord)
      → one_found (Map.get a (blank_databases rs)) ≡ map blank_record (one_found (Map.get a rs))
  unfolding Map.get blank_databases
  get-blank a [] = refl
  get-blank a ((b, r) ∷ rs) = ground (arith, get-blank a rs)

  all-blank :
      (rs : Map PinnedDatabaseRecord)
      → map (λ entry. entry.1) (blank_databases rs) ≡ map blank_record (map (λ entry. entry.1) rs)
  unfolding blank_databases
  all-blank [] = refl
  all-blank ((b, r) ∷ rs) = ap (λ es. blank_record r ∷ es) (all-blank rs)

  get_databases-blank :
      (a : Text) (rs : Map PinnedDatabaseRecord)
      → get_databases decode a (blank_databases rs) ≡ map blank_record (get_databases decode a rs)
  unfolding get_databases
  get_databases-blank a rs = elim (Bool-cases (is_empty (trim a))) [
    | inl blank_address ↦ rw blank_address (all-blank rs)
    | inr named ↦ rw named (get-blank (get_or (decode (trim a)) (trim a)) rs)
  ]

  databases_reply-blank :
      (filter_raw : Text) (found : List PinnedDatabaseRecord)
      → databases_reply decode to_iso false filter_raw (map blank_record found)
        ≡ databases_reply decode to_iso false filter_raw found
  unfolding databases_reply
  databases_reply-blank filter_raw found =
      rw (listed-blank found, length-map blank_record found) refl

  sync_route-blank :
      (options : Options) (h : Handlers) (query : Map Text) (body : Body)
      → options.exposed ≡ false
      → sync_route decode to_iso options (blank h) query body
        ≡ sync_route decode to_iso options h query body
  unfolding sync_route
  sync_route-blank options h query (json body) hidden =
      let a =
        param (at "dbAddress" body) (codes "dbAddress") query
          (codes "dbAddress" ∷ codes "address" ∷ []) in
      rw (sync_reply-blank options a (h.sync_database a) hidden) refl
  sync_route-blank options h query _ hidden = refl

  -- Unless record values are exposed, a reply tells of the last record of a database no more than
  -- its hash: the relay replies alike to every request when the last records are cut down to
  -- their hashes, every other field removed.
  pub handle_request-blank :
      (health multiaddrs : Fields) (options : Options) (pinning : Option Handlers) (req : Request)
      → options.exposed ≡ false
      → handle_request decode to_iso health multiaddrs options (blank_pinning pinning) req
        ≡ handle_request decode to_iso health multiaddrs options pinning req
  unfolding handle_request other_route pinning_route ipfs_reply
  handle_request-blank health multiaddrs options none req hidden = refl
  handle_request-blank health multiaddrs options (some h) req hidden =
      let filter_raw = first_search_param req.query (codes "address" ∷ codes "dbAddress" ∷ []) in
      rw
        (
          sync_route-blank options h req.query req.body hidden,
          hidden,
          get_databases-blank filter_raw h.databases,
          databases_reply-blank filter_raw (get_databases decode filter_raw h.databases),
        )
        refl

  gateway-is_fetch :
      (has_helia : Bool) (cid : Text) (path : Option Text) (o : Option PinnedContent)
      → is_fetch (gateway_reply decode to_iso pinned_only has_helia cid path o) ≡ false
  unfolding gateway_reply
  gateway-is_fetch has_helia cid path (some (content content_type)) = refl
  gateway-is_fetch has_helia cid path (some (unavailable status error)) = refl
  gateway-is_fetch has_helia cid path none = refl

  ipfs-is_fetch :
      (options : Options) (pinning : Option Handlers) (wanted : Parsed)
      → options.fallback_mode ≡ pinned_only
      → is_fetch (ipfs_reply decode to_iso options pinning wanted) ≡ false
  unfolding ipfs_reply
  ipfs-is_fetch options pinning unhandled mode = refl
  ipfs-is_fetch options pinning (refused status code error) mode = refl
  ipfs-is_fetch options pinning (wants cid path) mode =
      let reply =
        gateway-is_fetch options.has_helia cid path
          (pinned_content decode to_iso pinning cid path) in
      rw mode (ground (arith, reply))

  sync_reply-is_fetch :
      (options : Options) (a : Text) (r : Option (Called SyncAnswer))
      → is_fetch (sync_reply decode to_iso options a r) ≡ false
  unfolding sync_reply
  sync_reply-is_fetch options a none = refl
  sync_reply-is_fetch options a (some (throws e)) = refl
  sync_reply-is_fetch options a (some (returns r)) = ground arith

  sync-is_fetch :
      (options : Options) (h : Handlers) (query : Map Text) (body : Body)
      → is_fetch (sync_route decode to_iso options h query body) ≡ false
  unfolding sync_route
  sync-is_fetch options h query (json body) =
      let a =
        param (at "dbAddress" body) (codes "dbAddress") query
          (codes "dbAddress" ∷ codes "address" ∷ []) in
      ground (arith, sync_reply-is_fetch options a (h.sync_database a))
  sync-is_fetch options h query invalid_json = refl
  sync-is_fetch options h query too_large = refl

  has_entry_reply-is_fetch :
      (a e : Text) (r : Called HasEntryResult)
      → is_fetch (has_entry_reply decode to_iso a e r) ≡ false
  unfolding has_entry_reply
  has_entry_reply-is_fetch a e (throws m) = refl
  has_entry_reply-is_fetch a e (returns r) = ground arith

  looked_up-is_fetch :
      (a e : Text) (has_entry : Option (Text → Text → Called HasEntryResult))
      → is_fetch (looked_up decode to_iso a e has_entry) ≡ false
  looked_up-is_fetch a e none = refl
  looked_up-is_fetch a e (some has_entry) = has_entry_reply-is_fetch a e (has_entry a e)

  has_entry-is_fetch :
      (h : Handlers) (query : Map Text) (body : Body)
      → is_fetch (has_entry_route decode to_iso h query body) ≡ false
  unfolding has_entry_route
  has_entry-is_fetch h query (json body) =
      let a =
        param (at "dbAddress" body) (codes "dbAddress") query
          (codes "dbAddress" ∷ codes "address" ∷ []) in
      let e =
        param (at "entryHash" body) (codes "entryHash") query
          (codes "entryHash" ∷ codes "hash" ∷ []) in
      ground (arith, looked_up-is_fetch a e h.has_entry)
  has_entry-is_fetch h query invalid_json = refl
  has_entry-is_fetch h query too_large = refl

  other-is_fetch :
      (options : Options) (pinning : Option Handlers) (req : Request)
      → options.fallback_mode ≡ pinned_only
      → is_fetch (other_route decode to_iso options pinning req) ≡ false
  unfolding other_route pinning_route databases_reply
  other-is_fetch options none req mode =
      ipfs-is_fetch options none (parse_ipfs_request decode req.method req.url) mode
  other-is_fetch options (some h) req mode = ground (
    arith,
    sync-is_fetch options h req.query req.body,
    has_entry-is_fetch h req.query req.body,
    ipfs-is_fetch options (some h) (parse_ipfs_request decode req.method req.url) mode,
  )

  -- In the mode `pinned-only` no request makes the relay fetch content from the network.
  handle_request-is_fetch :
      (health multiaddrs : Fields) (options : Options) (pinning : Option Handlers) (req : Request)
      → options.fallback_mode ≡ pinned_only
      → is_fetch (handle_request decode to_iso health multiaddrs options pinning req) ≡ false
  unfolding handle_request
  handle_request-is_fetch health multiaddrs options pinning req mode =
      ground (arith, other-is_fetch options pinning req mode)
