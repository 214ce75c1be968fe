-- ===== src/Http/Paths.antt =====
-- Theorems about the gateway paths of src/http/pinning-http.ts, `parseIpfsRequest`.
use orbitdb_relay.Prelude.{
  Text, codes, text_eq, text_eq_iff, starts_with, Bool, true, Option, none, some, List, [], ◌∷◌,
  ◌++◌, ◌≡◌, ◌≢◌, refl, ◌∙◌, ap, arith, all, All, filter, ◌||◌, not, ◌==◌,
}
use orbitdb_relay.Peers.{is_empty}
use orbitdb_relay.Http.{
  before_query, pathname_only, split_slashes, join_slashes, path_parts, decode_all, wanted, wants,
  parse_ipfs_request,
}

-- No slash and no question mark.
abbrev pub is_plain : Text → Bool
is_plain part = all (λ c. not (c == 47 || c == 63)) part

-- A path segment that stands for itself.
abbrev pub IsSegment : (Text → Option Text) → Text → Type 0
IsSegment decode part = (part ≢ []) × (is_plain part ≡ true) × (decode part ≡ some part)

before_query-append : (s t : Text) → is_plain s ≡ true → before_query (s ++ t) ≡ s ++ before_query t
unfolding before_query
before_query-append [] t p = refl
before_query-append (c ∷ s) t p = ground (arith, p, before_query-append s t)

before_query-plain : (s : Text) → is_plain s ≡ true → before_query s ≡ s
unfolding before_query
before_query-plain [] p = refl
before_query-plain (c ∷ s) p = ground (arith, p, before_query-plain s)

split_slashes-plain : (s : Text) → is_plain s ≡ true → split_slashes s ≡ s ∷ []
unfolding split_slashes
split_slashes-plain [] p = refl
split_slashes-plain (c ∷ s) p = ground (arith, p, split_slashes-plain s)

split_slashes-append :
    (s t : Text) → is_plain s ≡ true → split_slashes (s ++ 47 ∷ t) ≡ s ∷ split_slashes t
unfolding split_slashes
split_slashes-append [] t p = refl
split_slashes-append (c ∷ s) t p = ground (arith, p, split_slashes-append s t)

before_query-join :
    (decode : Text → Option Text) (parts : List Text)
    → All (IsSegment decode) parts
    → before_query (join_slashes parts) ≡ join_slashes parts
unfolding before_query join_slashes
before_query-join decode [] v = refl
before_query-join decode (part ∷ []) ((_, plain, _), v) =
    ground (arith, before_query-plain part plain)
before_query-join decode (part ∷ other ∷ parts) ((_, plain, _), v) =
    before_query-append part (47 ∷ join_slashes (other ∷ parts)) plain
    ∙ ap (λ s. part ++ 47 ∷ s) (before_query-join decode (other ∷ parts) v)

split-join :
    (decode : Text → Option Text) (part : Text) (parts : List Text)
    → All (IsSegment decode) (part ∷ parts)
    → split_slashes (join_slashes (part ∷ parts)) ≡ part ∷ parts
unfolding join_slashes
split-join decode part [] ((_, plain, _), v) = split_slashes-plain part plain
split-join decode part (other ∷ parts) ((_, plain, _), v) =
    split_slashes-append part (join_slashes (other ∷ parts)) plain
    ∙ ap (λ ps. part ∷ ps) (split-join decode other parts v)

filter-segments :
    (decode : Text → Option Text) (parts : List Text)
    → All (IsSegment decode) parts
    → filter (λ part. not (is_empty part)) parts ≡ parts
filter-segments decode [] v = refl
filter-segments decode (part ∷ parts) ((named, _, _), v) =
    ground (arith, named, text_eq_iff part [], filter-segments decode parts v)

decode_all-segments :
    (decode : Text → Option Text) (parts : List Text)
    → All (IsSegment decode) parts
    → decode_all decode parts ≡ some parts
unfolding decode_all
decode_all-segments decode [] v = refl
decode_all-segments decode (part ∷ parts) ((_, _, same), v) =
    rw (same, decode_all) (rw (decode_all-segments decode parts v) refl)

-- The path under the CID of a request: none if no segment follows it.
abbrev pub path_under : List Text → Option Text
path_under [] = none
path_under (part ∷ path) = some (join_slashes (part ∷ path))

wanted-segments :
    (cid : Text) (path : List Text) → wanted (some (cid ∷ path)) ≡ wants cid (path_under path)
unfolding wanted
wanted-segments cid [] = refl
wanted-segments cid (part ∷ path) = refl

-- A gateway request for a CID and a path under it, joined by slashes, is read back as that CID and
-- the path joined again, or no path if there is none, when no segment is empty, has a slash or a
-- question mark, or is changed by decoding.
pub parse_ipfs_request-join :
    (decode : Text → Option Text) (cid : Text) (path : List Text)
    → All (IsSegment decode) (cid ∷ path)
    → parse_ipfs_request decode (codes "GET") (some (codes "/ipfs/" ++ join_slashes (cid ∷ path)))
      ≡ wants cid (path_under path)
unfolding parse_ipfs_request pathname_only path_parts before_query starts_with text_eq
parse_ipfs_request-join decode cid path v =
    ap (λ s. wanted (decode_all decode (path_parts s))) (before_query-join decode (cid ∷ path) v)
    ∙ ap (λ ps. wanted (decode_all decode (filter (λ part. not (is_empty part)) ps)))
        (split-join decode cid path v)
    ∙ ap (λ ps. wanted (decode_all decode ps)) (filter-segments decode (cid ∷ path) v)
    ∙ ap wanted (decode_all-segments decode (cid ∷ path) v)
    ∙ wanted-segments cid path
