-- ===== src/Media/References.antt =====
-- What it means that a payload references a CID, and what one round of additions in
-- `extractImageCidsFromPayload` of src/services/database.ts adds.
use Prim.Native.String.{String}
use orbitdb_relay.Prelude.{
  map, if◌then◌else◌, ap, ℕ, suc, ◌+◌, Text, codes, text_eq, text_eq_iff, Bool, true, false, ◌||◌,
  ◌&&◌, Option, some, List, [], ◌∷◌, ◌++◌, ◌≡◌, ◌≢◌, refl, ◌∙◌, arith, any,
}
use orbitdb_relay.Prelude.Map
use orbitdb_relay.Prelude.Map.{Map}
use orbitdb_relay.Prelude.TextSet
use orbitdb_relay.Prelude.TextSet.{TextSet}
use orbitdb_relay.Values.{
  is_text, arr, null, Value, undefined, str, obj, Items, nil, cons, Fields, items, coalesce,
}
use orbitdb_relay.Media.{
  add, add_direct, add_media_ids, media_ids, at, decimal, image_cid, profile_picture_cid,
  generic_cid,
}

-- The first value that is not null or undefined; the last if there is none.
abbrev pub first_present : List Value → Value
first_present [] = undefined
first_present (v ∷ []) = v
first_present (v ∷ w ∷ vs) = coalesce v (first_present (w ∷ vs))

abbrev pub fields : List String → Value → List Value
fields names p = map (λ k. at k p) names

abbrev pub picture_fields : List String
picture_fields = "profilePicture" ∷ "profilePictureCid" ∷ "profilePictureCID" ∷ []

-- The `value` of a key-value pair whose key is the name of a picture field.
abbrev pub keyed_picture : Value → Value
keyed_picture p =
    if any (λ k. is_text (codes k) (at "_id" p)) picture_fields then at "value" p else undefined

abbrev pub elements : Value → List Value
elements (arr vs) = items vs
elements _ = []

-- The values that a payload offers as CIDs, before anything nested in it: of each group of fields
-- the first that is there, and all `mediaIds`.
abbrev pub offered : Value → List Value
offered p =
    first_present (fields ("cid" ∷ "contentCid" ∷ "ipfsCid" ∷ "mediaCid" ∷ "thumbnailCid" ∷ []) p)
    ∷ at "mediaId" p
    ∷ first_present (fields picture_fields p ++ keyed_picture p ∷ [])
    ∷ first_present (fields ("imageCid" ∷ "imageCID" ∷ []) p ++ at "cid" (at "image" p) ∷ [])
    ∷ elements (at "mediaIds" p)

-- The value is the text `cid`, and not empty.
abbrev pub names : Text → Value → Bool
names cid (str (c ∷ s)) = text_eq (c ∷ s) cid
names cid _ = false

abbrev pub lists : Text → Map (List Text) → Bool
lists cid m = TextSet.has cid (Map.keys m)

-- A payload references `cid` if it offers it, or if the object in its `value` field does, written
-- out or as JSON, `left` levels down at most.
pub data References (parse_json : Text → Option Value) : ℕ → Value → Text → Type 0 where
  offers :
      {left : ℕ} {fs : Fields} {cid : Text}
      → any (names cid) (offered (obj fs)) ≡ true
      → References parse_json left (obj fs) cid
  in_object :
      {left : ℕ} {fs gs : Fields} {cid : Text}
      → at "value" (obj fs) ≡ obj gs
      → References parse_json left (obj gs) cid
      → References parse_json (suc left) (obj fs) cid
  in_json :
      {left : ℕ} {fs gs : Fields} {cid text : Text}
      → at "value" (obj fs) ≡ str text
      → text ≢ []
      → parse_json text ≡ some (obj gs)
      → References parse_json left (obj gs) cid
      → References parse_json (suc left) (obj fs) cid

pub lists-set :
    (j k : Text) (v : List Text) (m : Map (List Text))
    → lists j (Map.set k v m) ≡ (text_eq k j || lists j m)
unfolding Map.set TextSet.has
lists-set j k v [] = refl
lists-set j k v ((i, w) ∷ m) = ground (arith, lists-set j k v m, text_eq_iff i k)

pub lists-add :
    (j : Text) (v : Value) (source : Text) (m : Map TextSet)
    → lists j (add v source m) ≡ (names j v || lists j m)
unfolding add
lists-add j (str (c ∷ s)) source m = lists-set j (c ∷ s) _ m
lists-add j (str []) source m = refl
lists-add j _ source m = refl

lists-add_media_ids :
    (j : Text) (i : ℕ) (vs : Items) (m : Map TextSet)
    → lists j (add_media_ids i vs m) ≡ (any (names j) (items vs) || lists j m)
unfolding add_media_ids items
lists-add_media_ids j i nil m = refl
lists-add_media_ids j i (cons v vs) m = ground (
  arith,
  lists-add_media_ids j (i + 1) vs (add v (codes "mediaIds[" ++ decimal i ++ codes "]") m),
  lists-add j v (codes "mediaIds[" ++ decimal i ++ codes "]") m,
)

pub or_regroup :
    (g ids m p i l : Bool)
    → (g || (ids || (m || (p || (i || l))))) ≡ ((g || (m || (p || (i || ids)))) || l)
or_regroup g ids m p i l = ground arith

pub absorb : (a b c : Bool) → (a && b || (b || c)) ≡ (b || c)
absorb a b c = ground arith

pub or_false : (a : Bool) → (a || false) ≡ a
or_false true = refl
or_false false = refl

pub or_swap : (a b c : Bool) → (a || (b || c)) ≡ ((b || a) || c)
or_swap a b c = ground arith

pub coalesce_assoc : (a b c : Value) → coalesce (coalesce a b) c ≡ coalesce a (coalesce b c)
coalesce_assoc undefined b c = refl
coalesce_assoc null b c = refl
coalesce_assoc _ b c = refl

items-media_ids : (v : Value) → items (media_ids v) ≡ elements v
unfolding items
items-media_ids (arr vs) = refl
items-media_ids _ = refl

pub or_end : (a b c : Bool) → ((a || b) || c) ≡ (a || (b || (c || false)))
or_end a b c = ground arith

names-keyed_picture :
    (j : Text) (p : Value)
    → names j (profile_picture_cid p)
      ≡ names j (first_present (fields picture_fields p ++ keyed_picture p ∷ []))
names-keyed_picture j p =
    ap
      (λ b. names j (
        coalesce (at "profilePicture" p) (
          coalesce (at "profilePictureCid" p)
            (coalesce (at "profilePictureCID" p) (if b then at "value" p else undefined)))))
      (or_end (is_text (codes "profilePicture") (at "_id" p))
        (is_text (codes "profilePictureCid") (at "_id" p))
        (is_text (codes "profilePictureCID") (at "_id" p)))

pub or_parts :
    {p p' i i' l l' : Bool} → p ≡ p' → i ≡ i' → l ≡ l' → (p || (i || l)) ≡ (p' || (i' || l'))
or_parts p i l = cc

pub lists-add_direct :
    (j : Text) (p : Value) (m : Map TextSet)
    → lists j (add_direct p m) ≡ (any (names j) (offered p) || lists j m)
unfolding add_direct
lists-add_direct j p m =
    simp (lists-add, lists-add_media_ids)
      (or_regroup (names j (generic_cid p)) (any (names j) (items (media_ids (at "mediaIds" p))))
          (names j (at "mediaId" p)) (names j (profile_picture_cid p)) (names j (image_cid p))
          (lists j m)
        ∙ ap (λ x. (names j (generic_cid p) || (names j (at "mediaId" p) || x)) || lists j m)
            (or_parts (names-keyed_picture j p)
              (ap (names j)
                (coalesce_assoc (at "imageCid" p) (at "imageCID" p) (at "cid" (at "image" p))))
              (ap (any (names j)) (items-media_ids (at "mediaIds" p)))))
