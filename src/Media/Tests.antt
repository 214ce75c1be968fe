-- ===== src/Media/Tests.antt =====
-- The media CIDs of src/services/database.ts in concrete records.
use orbitdb_relay.Prelude.{
  Text, codes, text_eq, true, if◌then◌else◌, Option, some, none, [], ◌∷◌, ◌≡◌, refl, ◌↔◌,
}
use orbitdb_relay.Values.{Value, lookup, str, obj, field, end}
use orbitdb_relay.Media.{
  extract_image_cids, entries, merge_records, merge, extract_at, add_value, add_direct, add,
  add_media_ids, merge_sources,
}
use orbitdb_relay.Prelude.Map
use orbitdb_relay.Prelude.TextSet
use orbitdb_relay.Prelude.Sort.{sort, insert, text_leb}
use orbitdb_relay.Media.Laws.{Referenced, extract_image_cids_iff}
use orbitdb_relay.Media.References.{lists}

-- A parser that knows one document.
abbrev one_document : Text → Option Value
one_document text = if text_eq text (codes "{}") then some (obj end) else none

abbrev photo : Value
photo = obj (
    field (codes "imageCid") (str (codes "bafy1"))
      (field (codes "value") (obj (field (codes "mediaId") (str (codes "bafy2")) end)) end))

found : extract_image_cids one_document (photo ∷ []) ≡ (codes "bafy2", codes "mediaId" ∷ []) ∷ []
unfolding extract_image_cids entries merge_records merge extract_at lookup text_eq add_value
    add_direct add add_media_ids Map.set Map.get sort merge_sources TextSet.add insert text_leb
found = refl

extract_image_cids_iff_example :
    (lists (codes "bafy2") (extract_image_cids one_document (photo ∷ [])) ≡ true)
    ↔ Referenced one_document (codes "bafy2") (photo ∷ [])
extract_image_cids_iff_example = extract_image_cids_iff one_document (codes "bafy2") (photo ∷ [])
