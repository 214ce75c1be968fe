-- ===== src/Prelude/Sort.antt =====
-- `Array.prototype.sort` of strings: by UTF-16 code units, stable.
use mathlib.Core.Path.{◌≡◌, refl}
use mathlib.Core.Bool.{Bool, true, false, ◌||◌, ◌&&◌}
use mathlib.Core.List.{List, [], ◌∷◌}
use native.Mathlib.Omega.{arith}
use orbitdb_relay.Prelude.Tests.{if◌then◌else◌, ltb, ◌==◌}
use orbitdb_relay.Prelude.Texts.{Text, text_eq, text_eq_iff}
use orbitdb_relay.Prelude.TextSet

unfoldable pub text_leb : Text → Text → Bool
text_leb [] t = true
text_leb (x ∷ s) [] = false
text_leb (x ∷ s) (y ∷ t) = ltb x y || (x == y && text_leb s t)

unfoldable pub insert : Text → List Text → List Text
insert x [] = x ∷ []
insert x (y ∷ ys) = if text_leb x y then x ∷ y ∷ ys else y ∷ insert x ys

unfoldable pub sort : List Text → List Text
unfolding insert
sort [] = []
sort (x ∷ xs) = insert x (sort xs)

pub text_leb_total : (s t : Text) → text_leb s t ≡ false → text_leb t s ≡ true
unfolding text_leb
text_leb_total [] t h = cc
text_leb_total (x ∷ s) [] h = refl
text_leb_total (x ∷ s) (y ∷ t) h = ground (arith, text_leb_total s t)

abbrev pub IsSorted : List Text → Type 0
IsSorted [] = Unit
IsSorted (x ∷ []) = Unit
IsSorted (x ∷ y ∷ ys) = (text_leb x y ≡ true) × IsSorted (y ∷ ys)

insert-IsSorted : (x : Text) (ys : List Text) → IsSorted ys → IsSorted (insert x ys)
unfolding insert
insert-IsSorted x [] s = tt
insert-IsSorted x (y ∷ []) s = ground (arith, text_leb_total x y)
insert-IsSorted x (y ∷ z ∷ zs) (p, s) =
    ground (arith, text_leb_total x y, text_leb_total x z, insert-IsSorted x (z ∷ zs) s)

pub sort-IsSorted : (xs : List Text) → IsSorted (sort xs)
unfolding sort
sort-IsSorted [] = tt
sort-IsSorted (x ∷ xs) = insert-IsSorted x (sort xs) (sort-IsSorted xs)

has-insert :
    (a x : Text) (ys : List Text) → TextSet.has a (insert x ys) ≡ (text_eq x a || TextSet.has a ys)
unfolding insert TextSet.has
has-insert a x [] = refl
has-insert a x (y ∷ ys) = ground (arith, has-insert a x ys)

-- Sorting keeps the elements.
pub has-sort : (a : Text) (xs : List Text) → TextSet.has a (sort xs) ≡ TextSet.has a xs
unfolding sort TextSet.has
has-sort a [] = refl
has-sort a (x ∷ xs) = rw (has-insert a x (sort xs), has-sort a xs)

insert-Distinct :
    (x : Text) (ys : List Text)
    → TextSet.has x ys ≡ false
    → TextSet.Distinct ys
    → TextSet.Distinct (insert x ys)
unfolding insert TextSet.has
insert-Distinct x [] h d = (refl, tt)
insert-Distinct x (y ∷ ys) h (f, d) =
    ground (arith, has-insert y x ys, insert-Distinct x ys, text_eq_iff x y, text_eq_iff y x)

pub sort-Distinct : (xs : List Text) → TextSet.Distinct xs → TextSet.Distinct (sort xs)
unfolding sort
sort-Distinct [] d = tt
sort-Distinct (x ∷ xs) (f, d) =
    insert-Distinct x (sort xs) (rw (has-sort x xs) f) (sort-Distinct xs d)
