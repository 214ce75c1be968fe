-- ===== src/Media/Shape.antt =====
-- The shape of what `extractImageCids` of src/services/database.ts returns.
use orbitdb_relay.Prelude.{
  ℕ, ◌+◌, zero, suc, Text, text_eq, text_eq_iff, ◌||◌, Option, List, [], ◌∷◌, ◌≡◌, ◌≢◌, refl, arith,
  All, get_or, Option-cases, inl, inr,
}
use orbitdb_relay.Prelude.Map
use orbitdb_relay.Prelude.Map.{Map}
use orbitdb_relay.Prelude.TextSet
use orbitdb_relay.Prelude.TextSet.{TextSet}
use orbitdb_relay.Prelude.Sort
use orbitdb_relay.Values.{Value, str, obj, Items, nil, cons, coalesce}
use orbitdb_relay.Media.{
  ExtractedMediaCid, add, add_direct, add_media_ids, at, add_sources, add_nested, entries,
  merge_sources, merge, add_value, extract_at, merge_records, extract_image_cids, parsed_object,
}

-- A CID with a set of sources.
abbrev pub IsSourced : Text × TextSet → Type 0
IsSourced e = (e.0 ≢ []) × (e.1 ≢ []) × TextSet.Distinct e.1

abbrev pub IsIndex : Map TextSet → Type 0
IsIndex m = All IsSourced m × TextSet.Distinct (Map.keys m)

has-set :
    (j k : Text) (v : TextSet) (m : Map TextSet)
    → TextSet.has j (Map.keys (Map.set k v m)) ≡ (text_eq k j || TextSet.has j (Map.keys m))
unfolding Map.set TextSet.has
has-set j k v [] = refl
has-set j k v ((i, w) ∷ m) = ground (arith, has-set j k v m, text_eq_iff i k)

All-set :
    (k : Text) (v : TextSet) (m : Map TextSet)
    → IsSourced (k, v)
    → All IsSourced m
    → All IsSourced (Map.set k v m)
unfolding Map.set
All-set k v [] h a = (h, tt)
All-set k v ((i, w) ∷ m) h (q, a) = ground (arith, All-set k v m h a)

Distinct-set :
    (k : Text) (v : TextSet) (m : Map TextSet)
    → TextSet.Distinct (Map.keys m)
    → TextSet.Distinct (Map.keys (Map.set k v m))
unfolding Map.set TextSet.has
Distinct-set k v [] d = (refl, tt)
Distinct-set k v ((i, w) ∷ m) (f, d) =
    ground (arith, has-set i k v m, Distinct-set k v m d, text_eq_iff i k, text_eq_iff k i)

set-IsIndex :
    (k : Text) (v : TextSet) (m : Map TextSet)
    → IsSourced (k, v)
    → IsIndex m
    → IsIndex (Map.set k v m)
set-IsIndex k v m h (a, d) = (All-set k v m h a, Distinct-set k v m d)

get-IsSourced :
    (k : Text) (m : Map TextSet) → All IsSourced m → TextSet.Distinct (get_or (Map.get k m) [])
unfolding Map.get
get-IsSourced k [] a = tt
get-IsSourced k ((i, w) ∷ m) (q, a) = ground (arith, get-IsSourced k m a)

add-ne : (s : Text) (set : TextSet) → TextSet.add s set ≢ []
unfolding TextSet.add
add-ne s [] = ground arith
add-ne s (t ∷ set) = ground arith

add-IsIndex : (v : Value) (source : Text) (m : Map TextSet) → IsIndex m → IsIndex (add v source m)
unfolding add
add-IsIndex (str (c ∷ s)) source m i =
    set-IsIndex (c ∷ s) _ m
      ((λ e. cc), add-ne source _, TextSet.add-Distinct source _ (get-IsSourced (c ∷ s) m i.0)) i
add-IsIndex (str []) source m i = i
add-IsIndex _ source m i = i

add_media_ids-IsIndex :
    (i : ℕ) (vs : Items) (m : Map TextSet) → IsIndex m → IsIndex (add_media_ids i vs m)
unfolding add_media_ids
add_media_ids-IsIndex i nil m h = h
add_media_ids-IsIndex i (cons v vs) m h = add_media_ids-IsIndex (i + 1) vs _ (add-IsIndex v _ m h)

add_direct-IsIndex : (p : Value) (m : Map TextSet) → IsIndex m → IsIndex (add_direct p m)
unfolding add_direct
add_direct-IsIndex p m h =
    add-IsIndex _ _ _
      (add_media_ids-IsIndex 0 _ _ (add-IsIndex _ _ _ (add-IsIndex _ _ _ (add-IsIndex _ _ _ h))))

add_sources-IsIndex :
    (prefix cid : Text) (sources : List Text) (m : Map TextSet)
    → IsIndex m
    → IsIndex (add_sources prefix cid sources m)
unfolding add_sources
add_sources-IsIndex prefix cid [] m h = h
add_sources-IsIndex prefix cid (s ∷ ss) m h =
    add_sources-IsIndex prefix cid ss _ (add-IsIndex (str cid) _ m h)

add_nested-IsIndex :
    (prefix : Text) (es : List ExtractedMediaCid) (m : Map TextSet)
    → IsIndex m
    → IsIndex (add_nested prefix es m)
unfolding add_nested
add_nested-IsIndex prefix [] m h = h
add_nested-IsIndex prefix ((cid, ss) ∷ es) m h =
    add_nested-IsIndex prefix es _ (add_sources-IsIndex prefix cid ss m h)

-- One entry of the result.
abbrev pub IsEntry : ExtractedMediaCid → Type 0
IsEntry e = (e.0 ≢ []) × (e.1 ≢ []) × Sort.IsSorted e.1 × TextSet.Distinct e.1

abbrev pub IsResult : List ExtractedMediaCid → Type 0
IsResult es = All IsEntry es × TextSet.Distinct (Map.keys es)

insert-ne : (x : Text) (ys : List Text) → Sort.insert x ys ≢ []
unfolding Sort.insert
insert-ne x [] = ground arith
insert-ne x (y ∷ ys) = ground arith

sort-ne : (xs : List Text) → xs ≢ [] → Sort.sort xs ≢ []
unfolding Sort.sort Sort.insert
sort-ne [] h e = h refl
sort-ne (x ∷ xs) h e = insert-ne x (Sort.sort xs) e

keys-entries : (m : Map TextSet) → Map.keys (entries m) ≡ Map.keys m
unfolding entries
keys-entries [] = refl
keys-entries ((k, v) ∷ m) = rw (keys-entries m)

All-entries : (m : Map TextSet) → All IsSourced m → All IsEntry (entries m)
unfolding entries
All-entries [] a = tt
All-entries ((k, v) ∷ m) ((named, sourced, distinct), a) = (
  (named, sort-ne v sourced, Sort.sort-IsSorted v, Sort.sort-Distinct v distinct),
  All-entries m a,
)

entries-IsResult : (m : Map TextSet) → IsIndex m → IsResult (entries m)
entries-IsResult m (a, d) = (All-entries m a, rw (keys-entries m) d)

merge_sources-Distinct :
    (ss : List Text) (set : TextSet)
    → TextSet.Distinct set
    → TextSet.Distinct (merge_sources ss set)
unfolding merge_sources
merge_sources-Distinct [] set d = d
merge_sources-Distinct (s ∷ ss) set d = merge_sources-Distinct ss _ (TextSet.add-Distinct s set d)

merge_sources-ne : (ss : List Text) (set : TextSet) → set ≢ [] → merge_sources ss set ≢ []
unfolding merge_sources
merge_sources-ne [] set h = h
merge_sources-ne (s ∷ ss) set h = merge_sources-ne ss _ (add-ne s set)

merge_sources-ne_of_entry : (ss : List Text) (set : TextSet) → ss ≢ [] → merge_sources ss set ≢ []
unfolding merge_sources
merge_sources-ne_of_entry [] set h = absurd (h refl)
merge_sources-ne_of_entry (s ∷ ss) set h = merge_sources-ne ss _ (add-ne s set)

merge-IsIndex :
    (es : List ExtractedMediaCid) (m : Map TextSet)
    → All IsEntry es
    → IsIndex m
    → IsIndex (merge es m)
unfolding merge
merge-IsIndex [] m a h = h
merge-IsIndex ((cid, ss) ∷ es) m ((named, sourced, _, _), a) h = merge-IsIndex es _ a (
    set-IsIndex cid _ m
      (
        named,
        merge_sources-ne_of_entry ss _ sourced,
        merge_sources-Distinct ss _ (get-IsSourced cid m h.0),
      )
      h)

module _ (parse_json : Text → Option Value) where
  add_value-IsIndex :
      (rec : Value → List ExtractedMediaCid) (v : Value) (m : Map TextSet)
      → IsIndex m
      → IsIndex (add_value parse_json rec v m)
  unfolding add_value
  add_value-IsIndex rec (str (c ∷ s)) m h = elim (Option-cases (parsed_object parse_json (c ∷ s))) [
    | inl e ↦ rw (e, add_value) h
    | inr (p, e) ↦ rw (e, add_value) (add_nested-IsIndex _ (rec p) m h)
  ]
  add_value-IsIndex rec (str []) m h = h
  add_value-IsIndex rec (obj fs) m h = add_nested-IsIndex _ (rec (obj fs)) m h
  add_value-IsIndex rec _ m h = h

  pub extract_at-IsResult : (left : ℕ) (p : Value) → IsResult (extract_at parse_json left p)
  unfolding extract_at
  extract_at-IsResult zero (obj fs) = entries-IsResult _ (add_direct-IsIndex (obj fs) [] (tt, tt))
  extract_at-IsResult (suc left) (obj fs) =
      entries-IsResult _ (
        add_value-IsIndex (extract_at parse_json left) _ _
          (add_direct-IsIndex (obj fs) [] (tt, tt)))
  extract_at-IsResult _ _ = (tt, tt)

  merge_records-IsIndex :
      (records : List Value) (m : Map TextSet)
      → IsIndex m
      → IsIndex (merge_records parse_json records m)
  unfolding merge_records
  merge_records-IsIndex [] m h = h
  merge_records-IsIndex (r ∷ rs) m h =
      merge_records-IsIndex rs _
        (merge-IsIndex _ m (extract_at-IsResult 4 (coalesce (at "value" r) r)).0 h)

  -- Whatever the records hold, the CIDs that are returned are distinct and not empty, and each
  -- comes with at least one source; the sources of a CID are distinct and sorted.
  extract_image_cids-IsResult :
      (records : List Value) → IsResult (extract_image_cids parse_json records)
  unfolding extract_image_cids
  extract_image_cids-IsResult records =
      entries-IsResult _ (merge_records-IsIndex records [] (tt, tt))
