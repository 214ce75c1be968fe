-- ===== src/Media.antt =====
-- src/services/database.ts, `extractImageCidsFromPayload` and `extractImageCids`: the media CIDs
-- that a record references, with the fields that reference them. `JSON.parse` is a parameter:
-- `none` stands for its exception.
pub mod Merging
pub mod References
pub mod Shape
mod Tests
pub mod Laws
use Prim.Native.String.{String}
use orbitdb_relay.Prelude.{
  ℕ, zero, suc, ◌+◌, ◌/◌, ◌%◌, Text, codes, Option, none, some, List, map, [], ◌∷◌, ◌++◌, ◌||◌,
  if◌then◌else◌, get_or, ltb,
}
use orbitdb_relay.Prelude.Map
use orbitdb_relay.Prelude.Map.{Map}
use orbitdb_relay.Prelude.TextSet
use orbitdb_relay.Prelude.TextSet.{TextSet}
use orbitdb_relay.Prelude.Sort.{sort}
use orbitdb_relay.Values.{
  Value, undefined, null, bool, num, str, arr, obj, Items, nil, cons, member, coalesce, truthy,
  is_text,
}

-- One CID with its sources, sorted.
abbrev pub ExtractedMediaCid : Type 0
ExtractedMediaCid = Text × List Text

-- `${n}`: the decimal digits of a number, with fuel above the number.
decimal_digits : ℕ → ℕ → Text
decimal_digits zero n = []
decimal_digits (suc fuel) n =
    let longer = decimal_digits fuel (n / 10) ++ (48 + n % 10) ∷ [] in
    if ltb n 10 then (48 + n) ∷ [] else longer

unfoldable pub decimal : ℕ → Text
unfolding decimal_digits
decimal n = decimal_digits (suc n) n

-- The local helper `add`: strings that are not empty, each with the set of its sources.
unfoldable pub add : Value → Text → Map TextSet → Map TextSet
add (str (c ∷ s)) source by_cid =
    Map.set (c ∷ s) (TextSet.add source (get_or (Map.get (c ∷ s) by_cid) [])) by_cid
add _ source by_cid = by_cid

abbrev pub at : String → Value → Value
at k v = member (codes k) v

abbrev pub image_cid : Value → Value
image_cid p = coalesce (coalesce (at "imageCid" p) (at "imageCID" p)) (at "cid" (at "image" p))

abbrev pub image_source : Value → Text
image_source p =
    if truthy (at "imageCid" p)
    then codes "imageCid"
    else if truthy (at "imageCID" p)
    then codes "imageCID"
    else codes "image.cid"

abbrev pub names_profile_picture : Value → Value
names_profile_picture p =
    if is_text (codes "profilePicture") (at "_id" p)
      || is_text (codes "profilePictureCid") (at "_id" p)
      || is_text (codes "profilePictureCID") (at "_id" p)
    then at "value" p
    else undefined

abbrev pub profile_picture_cid : Value → Value
profile_picture_cid p = coalesce (at "profilePicture" p) (
    coalesce (at "profilePictureCid" p)
      (coalesce (at "profilePictureCID" p) (names_profile_picture p)))

abbrev pub profile_picture_source : Value → Text
profile_picture_source p =
    if truthy (at "profilePicture" p)
    then codes "profilePicture"
    else if truthy (at "profilePictureCid" p)
    then codes "profilePictureCid"
    else if truthy (at "profilePictureCID" p)
    then codes "profilePictureCID"
    else codes "profilePicture(_id/value)"

-- `Array.isArray(payload?.mediaIds) ? payload.mediaIds : []`
abbrev pub media_ids : Value → Items
media_ids (arr xs) = xs
media_ids _ = nil

unfoldable pub add_media_ids : ℕ → Items → Map TextSet → Map TextSet
add_media_ids i nil by_cid = by_cid
add_media_ids i (cons v vs) by_cid =
    add_media_ids (i + 1) vs (add v (codes "mediaIds[" ++ decimal i ++ codes "]") by_cid)

abbrev pub generic_cid : Value → Value
generic_cid p = coalesce (at "cid" p) (
    coalesce (at "contentCid" p)
      (coalesce (at "ipfsCid" p) (coalesce (at "mediaCid" p) (at "thumbnailCid" p))))

abbrev pub generic_source : Value → Text
generic_source p =
    if truthy (at "cid" p)
    then codes "cid"
    else if truthy (at "contentCid" p)
    then codes "contentCid"
    else if truthy (at "ipfsCid" p)
    then codes "ipfsCid"
    else if truthy (at "mediaCid" p)
    then codes "mediaCid"
    else codes "thumbnailCid"

-- The fields of the payload itself, in the order in which the source adds them.
unfoldable pub add_direct : Value → Map TextSet → Map TextSet
add_direct p by_cid = add (generic_cid p) (generic_source p) (
    add_media_ids 0 (media_ids (at "mediaIds" p)) (
      add (at "mediaId" p) (codes "mediaId") (
        add (profile_picture_cid p) (profile_picture_source p)
          (add (image_cid p) (image_source p) by_cid))))

unfoldable pub add_sources : Text → Text → List Text → Map TextSet → Map TextSet
add_sources prefix cid [] by_cid = by_cid
add_sources prefix cid (s ∷ sources) by_cid =
    add_sources prefix cid sources (add (str cid) (prefix ++ s) by_cid)

unfoldable pub add_nested : Text → List ExtractedMediaCid → Map TextSet → Map TextSet
add_nested prefix [] by_cid = by_cid
add_nested prefix ((cid, sources) ∷ es) by_cid =
    add_nested prefix es (add_sources prefix cid sources by_cid)

-- `Array.from(byCid.entries()).map(…)`
unfoldable pub entries : Map TextSet → List ExtractedMediaCid
entries [] = []
entries ((cid, sources) ∷ by_cid) = (cid, sort sources) ∷ entries by_cid

unfoldable pub merge_sources : List Text → TextSet → TextSet
merge_sources [] set = set
merge_sources (s ∷ sources) set = merge_sources sources (TextSet.add s set)

unfoldable pub merge : List ExtractedMediaCid → Map TextSet → Map TextSet
merge [] by_cid = by_cid
merge ((cid, sources) ∷ es) by_cid =
    merge es (Map.set cid (merge_sources sources (get_or (Map.get cid by_cid) [])) by_cid)

-- `parsed && typeof parsed === "object" && !Array.isArray(parsed)`
abbrev pub only_object : Option Value → Option Value
only_object (some (obj fs)) = some (obj fs)
only_object _ = none

module _ (parse_json : Text → Option Value) where
  -- What the text of a `value` field gives, if it is the JSON of an object.
  abbrev pub parsed_object : Text → Option Value
  parsed_object text = only_object (parse_json text)

  unfoldable pub add_value : (Value → List ExtractedMediaCid) → Value → Map TextSet → Map TextSet
  add_value rec (str (c ∷ s)) by_cid = elim (parsed_object (c ∷ s)) [
    | none ↦ by_cid
    | some parsed ↦ add_nested (codes "value(json).") (rec parsed) by_cid
  ]
  add_value rec (obj fs) by_cid = add_nested (codes "value.") (rec (obj fs)) by_cid
  add_value rec _ by_cid = by_cid

  -- The first argument is `maxDepth - depth`.
  unfoldable pub extract_at : ℕ → Value → List ExtractedMediaCid
  extract_at zero (obj fs) = entries (add_direct (obj fs) [])
  extract_at (suc left) (obj fs) =
      entries (add_value (extract_at left) (at "value" (obj fs)) (add_direct (obj fs) []))
  extract_at left _ = []

  abbrev pub extract_image_cids_from_payload : Value → List ExtractedMediaCid
  extract_image_cids_from_payload payload = extract_at 4 payload

  unfoldable pub merge_records : List Value → Map TextSet → Map TextSet
  merge_records [] by_cid = by_cid
  merge_records (record_ ∷ records) by_cid =
      merge_records records
        (merge (extract_image_cids_from_payload (coalesce (at "value" record_) record_)) by_cid)

  unfoldable pub extract_image_cids : List Value → List ExtractedMediaCid
  extract_image_cids records = entries (merge_records records [])
