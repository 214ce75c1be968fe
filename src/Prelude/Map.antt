-- ===== src/Prelude/Map.antt =====
-- JavaScript's `Map` with string keys: an association list in insertion order. `set` overwrites
-- in place and appends a new key at the end, as `Map.prototype.set` does.
use mathlib.Core.Path.{◌≡◌, refl}
use mathlib.Core.Bool.{Bool, ◌||◌, ◌&&◌, not}
use mathlib.Core.Logic.{inl, inr}
use mathlib.Core.List.{List, [], ◌∷◌, map}
use mathlib.Core.Option.{Option, none, some}
use native.Mathlib.Omega.{arith}
use orbitdb_relay.Prelude.Tests.{if◌then◌else◌, is_some, Bool-cases}
use orbitdb_relay.Prelude.TextSet
use orbitdb_relay.Prelude.Texts.{Text, text_eq, text_eq_iff, text_eq_refl}

abbrev pub Map {ℓ} : Type ℓ → Type ℓ
Map V = List (Text × V)

module _ {ℓ} {V : Type ℓ} where
  unfoldable pub get : Text → Map V → Option V
  get k [] = none
  get k ((j, v) ∷ m) = if text_eq j k then some v else get k m

  abbrev pub has : Text → Map V → Bool
  has k m = is_some (get k m)

  unfoldable pub set : Text → V → Map V → Map V
  set k v [] = (k, v) ∷ []
  set k v ((j, w) ∷ m) = if text_eq j k then (j, v) ∷ m else (j, w) ∷ set k v m

  unfoldable pub delete : Text → Map V → Map V
  delete k [] = []
  delete k ((j, v) ∷ m) = if text_eq j k then delete k m else (j, v) ∷ delete k m

  abbrev pub keys : Map V → List Text
  keys = map (λ e. e.0)

  abbrev pub values : Map V → List V
  values = map (λ e. e.1)

  pub get-set :
      (j k : Text) (v : V) (m : Map V)
      → get j (set k v m) ≡ (if text_eq k j then some v else get j m)
  unfolding get set
  get-set j k v [] = refl
  get-set j k v ((i, w) ∷ m) =
      ground (arith, text_eq_iff k j, text_eq_iff i k, text_eq_iff i j, get-set j k v m)

  pub get-delete :
      (j k : Text) (m : Map V) → get j (delete k m) ≡ (if text_eq k j then none else get j m)
  unfolding get delete
  get-delete j k [] = ground arith
  get-delete j k ((i, w) ∷ m) =
      ground (arith, text_eq_iff k j, text_eq_iff i k, text_eq_iff i j, get-delete j k m)

  pub get-set_self : (k : Text) (v : V) (m : Map V) → get k (set k v m) ≡ some v
  get-set_self k v m = simp (get-set, text_eq_refl)

  get-delete_self : (k : Text) (m : Map V) → get k (delete k m) ≡ none
  get-delete_self k m = simp (get-delete, text_eq_refl)

  pub has-keys : (k : Text) (m : Map V) → TextSet.has k (keys m) ≡ has k m
  unfolding TextSet.has get
  has-keys k [] = refl
  has-keys k ((j, v) ∷ m) = ground (arith, has-keys k m)

  has-keys-set :
      (j k : Text) (v : V) (m : Map V)
      → TextSet.has j (keys (set k v m)) ≡ (text_eq k j || TextSet.has j (keys m))
  has-keys-set j k v m = ground (arith, has-keys j (set k v m), has-keys j m, get-set j k v m)

  has-keys-delete :
      (j k : Text) (m : Map V)
      → TextSet.has j (keys (delete k m)) ≡ (not (text_eq k j) && TextSet.has j (keys m))
  has-keys-delete j k m = ground (arith, has-keys j (delete k m), has-keys j m, get-delete j k m)

  pub set-Distinct :
      (k : Text) (v : V) (m : Map V)
      → TextSet.Distinct (keys m)
      → TextSet.Distinct (keys (set k v m))
  unfolding set TextSet.has
  set-Distinct k v [] h = (refl, tt)
  set-Distinct k v ((j, w) ∷ m) (fresh, h) = elim (Bool-cases (text_eq j k)) [
    | inl same ↦ rw same (fresh, h)
    | inr other ↦ rw other (
      ground (arith, has-keys-set j k v m, text_eq_iff j k, text_eq_iff k j),
      set-Distinct k v m h,
    )
  ]

  pub delete-Distinct :
      (k : Text) (m : Map V) → TextSet.Distinct (keys m) → TextSet.Distinct (keys (delete k m))
  unfolding delete TextSet.has
  delete-Distinct k [] h = tt
  delete-Distinct k ((j, w) ∷ m) (fresh, h) = elim (Bool-cases (text_eq j k)) [
    | inl same ↦ rw same (delete-Distinct k m h)
    | inr other ↦ rw other (ground (arith, has-keys-delete j k m), delete-Distinct k m h)
  ]
