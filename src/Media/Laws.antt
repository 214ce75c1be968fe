-- ===== src/Media/Laws.antt =====
-- Which CIDs `extractImageCids` of src/services/database.ts finds.
use orbitdb_relay.Prelude.{
  ℕ, zero, suc, Text, Bool, true, false, ◌||◌, Option, none, some, List, [], ◌∷◌, ◌≡◌, ◌≢◌, ◌↔◌,
  ◌⊎◌, refl, sym, ◌∙◌, arith, All, any, Option-cases, inl, inr,
}
use orbitdb_relay.Prelude.Map.{Map}
use orbitdb_relay.Prelude.TextSet
use orbitdb_relay.Prelude.TextSet.{TextSet}
use orbitdb_relay.Values.{Value, undefined, str, obj, Fields, coalesce}
use orbitdb_relay.Media.{
  ExtractedMediaCid, add_direct, at, merge, add_value, extract_at, merge_records,
  extract_image_cids, parsed_object,
}
use orbitdb_relay.Media.Shape.{IsEntry, extract_at-IsResult}
use orbitdb_relay.Media.References.{
  offers, in_object, in_json, offered, names, lists, References, or_false, lists-add_direct,
}
use orbitdb_relay.Media.Merging.{
  lists-add_nested, lists-entries, lists-merge, only_object_lem, or_cases, or_true,
}

module _ (parse_json : Text → Option Value) (j : Text) where
  -- What the `value` field contributes.
  nested : (Value → List ExtractedMediaCid) → Value → Bool
  nested rec (str (c ∷ s)) = elim (parsed_object parse_json (c ∷ s)) [
    | none ↦ false
    | some parsed ↦ lists j (rec parsed)
  ]
  nested rec (obj fs) = lists j (rec (obj fs))
  nested rec _ = false

  lists-add_value :
      (rec : Value → List ExtractedMediaCid) (v : Value) (m : Map TextSet)
      → ((p : Value) → All IsEntry (rec p))
      → lists j (add_value parse_json rec v m) ≡ (nested rec v || lists j m)
  unfolding add_value nested
  lists-add_value rec (str (c ∷ s)) m a = elim (Option-cases (parsed_object parse_json (c ∷ s))) [
    | inl e ↦ rw (e, add_value, nested) refl
    | inr (p, e) ↦ rw (e, add_value, nested) (lists-add_nested j _ (rec p) m (a p))
  ]
  lists-add_value rec (str []) m a = refl
  lists-add_value rec (obj fs) m a = lists-add_nested j _ (rec (obj fs)) m (a (obj fs))
  lists-add_value rec _ m a = refl

  lists-extract_at-zero :
      (fs : Fields)
      → lists j (extract_at parse_json zero (obj fs)) ≡ any (names j) (offered (obj fs))
  unfolding extract_at TextSet.has
  lists-extract_at-zero fs =
      rw (lists-entries j (add_direct (obj fs) []), lists-add_direct j (obj fs) []) (or_false _)

  lists-extract_at-suc :
      (left : ℕ) (fs : Fields)
      → lists j (extract_at parse_json (suc left) (obj fs)) ≡ (
          nested (extract_at parse_json left) (at "value" (obj fs))
          || any (names j) (offered (obj fs)))
  unfolding extract_at TextSet.has
  lists-extract_at-suc left fs =
      rw
        (
          lists-entries j _,
          lists-add_value (extract_at parse_json left) (at "value" (obj fs))
              (add_direct (obj fs) []) (λ p. (extract_at-IsResult parse_json left p).0),
          lists-add_direct j (obj fs) [],
          or_false,
        )
        refl

  nested_text :
      (rec : Value → List ExtractedMediaCid) (c : ℕ) (s : Text)
      → nested rec (str (c ∷ s)) ≡ true
      → (p : Value) × (parsed_object parse_json (c ∷ s) ≡ some p) × (lists j (rec p) ≡ true)
  unfolding nested
  nested_text rec c s h = elim (Option-cases (parsed_object parse_json (c ∷ s))) [
    | inl missing ↦ cc
    | inr (p, found) ↦ (p, found, ground arith)
  ]

  nested_sound :
      (left : ℕ) (fs : Fields) (v : Value)
      → at "value" (obj fs) ≡ v
      → ((p : Value)
          → lists j (extract_at parse_json left p) ≡ true
          → References parse_json left p j)
      → nested (extract_at parse_json left) v ≡ true
      → References parse_json (suc left) (obj fs) j
  unfolding nested
  nested_sound left fs (str (c ∷ s)) e ih h =
      let (p, found, hit) = nested_text (extract_at parse_json left) c s h in
      let (gs, same, parsed) = only_object_lem _ p found in
      in_json e (λ k. cc) parsed (rw same at (ih p hit))
  nested_sound left fs (obj gs) e ih h = in_object e (ih (obj gs) h)
  nested_sound left fs (str []) e ih h = cc
  nested_sound left fs _ e ih h = cc

  -- Every CID that the extraction finds is referenced.
  lists_sound :
      (left : ℕ) (p : Value)
      → lists j (extract_at parse_json left p) ≡ true
      → References parse_json left p j
  unfolding extract_at TextSet.has
  lists_sound zero (obj fs) h = offers (sym (lists-extract_at-zero fs) ∙ h)
  lists_sound (suc left) (obj fs) h = elim (or_cases _ _ (sym (lists-extract_at-suc left fs) ∙ h)) [
    | inl deeper ↦ nested_sound left fs (at "value" (obj fs)) refl (lists_sound left) deeper
    | inr here ↦ offers here
  ]
  lists_sound zero undefined h = cc
  lists_sound _ _ h = cc

  nested_json :
      (rec : Value → List ExtractedMediaCid) (text : Text) {gs : Fields}
      → text ≢ []
      → parse_json text ≡ some (obj gs)
      → nested rec (str text) ≡ lists j (rec (obj gs))
  unfolding nested
  nested_json rec [] n f = absurd (n refl)
  nested_json rec (c ∷ s) n f = rw (nested, f)

  lists_complete :
      {left : ℕ} {p : Value}
      → References parse_json left p j
      → lists j (extract_at parse_json left p) ≡ true
  unfolding nested
  lists_complete {left = zero} (offers {fs} h) = rw (lists-extract_at-zero fs) h
  lists_complete {left = suc left} (offers {fs} h) =
      rw (lists-extract_at-suc left fs, h) (or_true _)
  lists_complete (in_object {left} {fs} e r) =
      rw (lists-extract_at-suc left fs, e, nested, lists_complete r) refl
  lists_complete (in_json {left} {fs} {text} e n f r) =
      rw
        (
          lists-extract_at-suc left fs,
          e,
          nested_json (extract_at parse_json left) text n f,
          lists_complete r,
        )
        refl

  -- `record?.value ?? record`
  abbrev pub payload : Value → Value
  payload r = coalesce (at "value" r) r

  -- Some record of the list references the CID.
  abbrev pub Referenced : List Value → Type 0
  Referenced [] = ⊥
  Referenced (r ∷ rs) = References parse_json 4 (payload r) j ⊎ Referenced rs

  merge_records_sound :
      (rs : List Value) (m : Map TextSet)
      → lists j (merge_records parse_json rs m) ≡ true
      → Referenced rs ⊎ (lists j m ≡ true)
  unfolding merge_records
  merge_records_sound [] m h = inr h
  merge_records_sound (r ∷ rs) m h =
      let es = extract_at parse_json 4 (payload r) in
      elim (merge_records_sound rs (merge es m) h) [
        | inl later ↦ inl (inr later)
        | inr now ↦ elim (or_cases _ _ (sym (lists-merge j es m) ∙ now)) [
          | inl hit ↦ inl (inl (lists_sound 4 (payload r) hit))
          | inr old ↦ inr old
        ]
      ]

  merge_records_kept :
      (rs : List Value) (m : Map TextSet)
      → lists j m ≡ true
      → lists j (merge_records parse_json rs m) ≡ true
  unfolding merge_records
  merge_records_kept [] m h = h
  merge_records_kept (r ∷ rs) m h =
      let es = extract_at parse_json 4 (payload r) in
      merge_records_kept rs (merge es m) (rw (lists-merge j es m, h) (or_true _))

  merge_records_complete :
      (rs : List Value) (m : Map TextSet)
      → Referenced rs
      → lists j (merge_records parse_json rs m) ≡ true
  unfolding merge_records
  merge_records_complete [] m h = absurd h
  merge_records_complete (r ∷ rs) m (inl now) =
      let es = extract_at parse_json 4 (payload r) in
      merge_records_kept rs (merge es m) (rw (lists-merge j es m, lists_complete now) refl)
  merge_records_complete (r ∷ rs) m (inr later) = merge_records_complete rs _ later

  -- A CID is among those that `extractImageCids` returns for a list of records exactly when some
  -- record references it: the record's value, or the record itself if it has none, offers the CID
  -- in one of the known fields, or an object nested in its `value` field does, as an object or as
  -- JSON text, at most four levels down.
  pub extract_image_cids_iff :
      (records : List Value)
      → (lists j (extract_image_cids parse_json records) ≡ true) ↔ Referenced records
  unfolding extract_image_cids TextSet.has
  extract_image_cids_iff records =
      let same = lists-entries j (merge_records parse_json records []) in
      (
        (λ h. elim (merge_records_sound records [] (sym same ∙ h)) [
          | inl found ↦ found
          | inr none_yet ↦ cc
        ]),
        λ r. same ∙ merge_records_complete records [] r,
      )
