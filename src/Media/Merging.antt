-- ===== src/Media/Merging.antt =====
-- What src/services/database.ts keeps of the CIDs and sources that it merges.
use orbitdb_relay.Prelude.{
  Text, text_eq, Bool, true, false, ◌||◌, ◌&&◌, Option, some, List, [], ◌∷◌, ◌++◌, ◌≡◌, ◌⊎◌, refl,
  arith, All, get_or,
}
use orbitdb_relay.Prelude.Map
use orbitdb_relay.Prelude.Map.{Map}
use orbitdb_relay.Prelude.TextSet
use orbitdb_relay.Prelude.TextSet.{TextSet}
use orbitdb_relay.Values.{Value, undefined, str, obj, Fields}
use orbitdb_relay.Media.{
  ExtractedMediaCid, add, add_sources, add_nested, entries, merge_sources, merge, only_object,
}
use orbitdb_relay.Media.Shape.{IsEntry}
use orbitdb_relay.Media.References.{names, lists, lists-set, lists-add, absorb, or_swap}

not_empty : List Text → Bool
not_empty [] = false
not_empty (x ∷ xs) = true

lists-add_sources :
    (j prefix cid : Text) (sources : List Text) (m : Map TextSet)
    → lists j (add_sources prefix cid sources m)
      ≡ (not_empty sources && names j (str cid) || lists j m)
unfolding add_sources not_empty
lists-add_sources j prefix cid [] m = refl
lists-add_sources j prefix cid (s ∷ ss) m =
    rw
      (
        lists-add_sources j prefix cid ss (add (str cid) (prefix ++ s) m),
        lists-add j (str cid) (prefix ++ s) m,
      )
      (absorb (not_empty ss) (names j (str cid)) (lists j m))

pub lists-add_nested :
    (j prefix : Text) (es : List ExtractedMediaCid) (m : Map TextSet)
    → All IsEntry es
    → lists j (add_nested prefix es m) ≡ (lists j es || lists j m)
unfolding add_nested TextSet.has not_empty
lists-add_nested j prefix [] m a = refl
lists-add_nested j prefix (([], ss) ∷ es) m ((named, _, _, _), a) = absurd (named refl)
lists-add_nested j prefix ((c ∷ cid, []) ∷ es) m ((_, sourced, _, _), a) = absurd (sourced refl)
lists-add_nested j prefix ((c ∷ cid, s ∷ ss) ∷ es) m (_, a) =
    rw
      (
        lists-add_nested j prefix es (add_sources prefix (c ∷ cid) (s ∷ ss) m) a,
        lists-add_sources j prefix (c ∷ cid) (s ∷ ss) m,
      )
      (or_swap (lists j es) (text_eq (c ∷ cid) j) (lists j m))

pub lists-entries : (j : Text) (m : Map TextSet) → lists j (entries m) ≡ lists j m
unfolding entries TextSet.has
lists-entries j [] = refl
lists-entries j ((k, v) ∷ m) = rw (lists-entries j m)

pub lists-merge :
    (j : Text) (es : List ExtractedMediaCid) (m : Map TextSet)
    → lists j (merge es m) ≡ (lists j es || lists j m)
unfolding merge TextSet.has
lists-merge j [] m = refl
lists-merge j ((cid, ss) ∷ es) m =
    let set = merge_sources ss (get_or (Map.get cid m) []) in
    rw (lists-merge j es (Map.set cid set m), lists-set j cid set m)
      (or_swap (lists j es) (text_eq cid j) (lists j m))

pub only_object_lem :
    (o : Option Value) (p : Value)
    → only_object o ≡ some p
    → (gs : Fields) × (p ≡ obj gs) × (o ≡ some (obj gs))
only_object_lem (some (obj gs)) p e = (gs, ground arith, refl)
only_object_lem (some undefined) p e = cc
only_object_lem _ p e = cc

pub or_cases : (a b : Bool) → (a || b) ≡ true → (a ≡ true) ⊎ (b ≡ true)
or_cases a b h = ground arith

pub or_true : (a : Bool) → (a || true) ≡ true
or_true true = refl
or_true false = refl
