-- ===== src/Prelude/TextSet.antt =====
-- JavaScript's `Set` of strings: a list without repetition, in insertion order.
use mathlib.Core.Path.{◌≡◌, refl}
use mathlib.Core.Bool.{true, Bool, false, ◌||◌, ◌&&◌, not}
use mathlib.Core.List.{List, [], ◌∷◌, ◌++◌}
use mathlib.Core.Logic.{inl, inr}
use native.Mathlib.Omega.{arith}
use orbitdb_relay.Prelude.Tests.{if◌then◌else◌, Bool-cases}
use orbitdb_relay.Prelude.Lists.{All}
use orbitdb_relay.Prelude.Texts.{Text, text_eq, text_eq_sound, text_eq_iff}

abbrev pub TextSet : Type 0
TextSet = List Text

unfoldable pub has : Text → TextSet → Bool
has k [] = false
has k (j ∷ s) = text_eq j k || has k s

-- A present element keeps its place.
unfoldable pub add : Text → TextSet → TextSet
add k [] = k ∷ []
add k (j ∷ s) = if text_eq j k then j ∷ s else j ∷ add k s

unfoldable pub delete : Text → TextSet → TextSet
delete k [] = []
delete k (j ∷ s) = if text_eq j k then delete k s else j ∷ delete k s

abbrev pub Distinct : TextSet → Type 0
Distinct [] = Unit
Distinct (x ∷ s) = (has x s ≡ false) × Distinct s

pub has-add : (j k : Text) (s : TextSet) → has j (add k s) ≡ text_eq k j || has j s
unfolding has add
has-add j k [] = refl
has-add j k (i ∷ s) =
    ground (arith, text_eq_iff k j, text_eq_iff i k, text_eq_iff i j, has-add j k s)

pub has-delete : (j k : Text) (s : TextSet) → has j (delete k s) ≡ (not (text_eq k j) && has j s)
unfolding has delete
has-delete j k [] = ground arith
has-delete j k (i ∷ s) =
    ground (arith, text_eq_iff k j, text_eq_iff i k, text_eq_iff i j, has-delete j k s)

pub has-append : (j : Text) (s t : TextSet) → has j (s ++ t) ≡ (has j s || has j t)
unfolding has
has-append j [] t = refl
has-append j (i ∷ s) t = ground (arith, has-append j s t)

pub add-Distinct : (k : Text) (s : TextSet) → Distinct s → Distinct (add k s)
unfolding has add
add-Distinct k [] d = (refl, tt)
add-Distinct k (i ∷ s) (fresh, d) =
    ground (arith, add-Distinct k s d, has-add i k s, text_eq_iff k i, text_eq_iff i k)

pub delete-Distinct : (k : Text) (s : TextSet) → Distinct s → Distinct (delete k s)
unfolding delete
delete-Distinct k [] d = tt
delete-Distinct k (i ∷ s) (fresh, d) = ground (arith, delete-Distinct k s d, has-delete i k s)

module _ {ℓ} (P : Text → Type ℓ) where
  pub All-add : (k : Text) (s : TextSet) → P k → All P s → All P (add k s)
  unfolding add
  All-add k [] p h = (p, tt)
  All-add k (j ∷ s) p (q, h) = ground (arith, All-add k s p h)

  All-has : (k : Text) (s : TextSet) → All P s → has k s ≡ true → P k
  unfolding has
  All-has k [] h e = cc
  All-has k (j ∷ s) (q, h) e = elim (Bool-cases (text_eq j k)) [
    | inl same ↦ rw (← text_eq_sound j k same) q
    | inr other ↦ All-has k s h (ground arith)
  ]
