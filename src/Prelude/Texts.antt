-- ===== src/Prelude/Texts.antt =====
-- Strings of the source as lists of UTF-16 code units, with the operations that it uses on them.
use Prim.Native.Char.{code}
use Prim.Native.String.{String}
use Prim.Native.Nat.{ℕ}
use mathlib.Core.Path.{◌≡◌, refl}
use mathlib.Core.Logic.{◌↔◌, inl, inr}
use mathlib.Core.Bool.{Bool, true, false, ◌&&◌, ◌||◌}
use mathlib.Core.Option.{Option, none, some}
use mathlib.Core.List.{List, [], ◌∷◌, ◌++◌}
use native.Mathlib.Omega.{arith}
use orbitdb_relay.Prelude.Tests.{◌==◌, if◌then◌else◌, is_some, Option-cases}
use orbitdb_relay.Prelude.Lists.{length, drop}

abbrev pub Text : Type 0
Text = List ℕ

abbrev pub Bytes : Type 0
Bytes = List ℕ

abbrev pub join : List Text → Text
join [] = []
join (piece ∷ pieces) = piece ++ join pieces

-- The code units of an ASCII literal.
abbrev pub codes : String → Text
codes String.[] = []
codes (String.◌∷◌ c s) = code c ∷ codes s

-- `a === b`
unfoldable pub text_eq : Text → Text → Bool
text_eq [] [] = true
text_eq [] (y ∷ t) = false
text_eq (x ∷ s) [] = false
text_eq (x ∷ s) (y ∷ t) = x == y && text_eq s t

-- `s.startsWith(p)`
unfoldable pub starts_with : Text → Text → Bool
starts_with s [] = true
starts_with [] (y ∷ p) = false
starts_with (x ∷ s) (y ∷ p) = x == y && starts_with s p

-- `s.includes(t)`
unfoldable pub includes : Text → Text → Bool
includes [] t = starts_with [] t
includes (c ∷ s) t = starts_with (c ∷ s) t || includes s t

abbrev pub push_before : ℕ → Option (Text × Text) → Option (Text × Text)
push_before c none = none
push_before c (some (before, at)) = some (c ∷ before, at)

-- The text cut at `s.indexOf(t)`.
unfoldable pub cut_at : Text → Text → Option (Text × Text)
cut_at t [] = if starts_with [] t then some ([], []) else none
cut_at t (c ∷ s) = if starts_with (c ∷ s) t then some ([], c ∷ s) else push_before c (cut_at t s)

-- `s.slice(n)`
abbrev pub slice_from : Text → ℕ → Text
slice_from s n = drop n s

pub text_eq_sound : (s t : Text) → text_eq s t ≡ true → s ≡ t
unfolding text_eq
text_eq_sound [] [] h = refl
text_eq_sound [] (y ∷ t) h = cc
text_eq_sound (x ∷ s) [] h = cc
text_eq_sound (x ∷ s) (y ∷ t) h = ground (arith, text_eq_sound s t)

pub text_eq_refl : (s : Text) → text_eq s s ≡ true
unfolding text_eq
text_eq_refl [] = refl
text_eq_refl (x ∷ s) = ground (arith, text_eq_refl s)

pub text_eq_iff : (s t : Text) → (text_eq s t ≡ true) ↔ (s ≡ t)
text_eq_iff s t = (text_eq_sound s t, λ e. rw e (text_eq_refl t))

pub text_eq_sym : (s t : Text) → text_eq s t ≡ text_eq t s
unfolding text_eq
text_eq_sym [] [] = refl
text_eq_sym [] (y ∷ t) = refl
text_eq_sym (x ∷ s) [] = refl
text_eq_sym (x ∷ s) (y ∷ t) = ground (arith, text_eq_sym s t)

starts_with-append : (p s : Text) → starts_with (p ++ s) p ≡ true
unfolding starts_with
starts_with-append [] [] = refl
starts_with-append [] (x ∷ s) = refl
starts_with-append (x ∷ p) s = ground (arith, starts_with-append p s)

pub append-slice_from : (s p : Text) → starts_with s p ≡ true → p ++ slice_from s (length p) ≡ s
unfolding starts_with
append-slice_from s [] h = refl
append-slice_from [] (y ∷ p) h = cc
append-slice_from (x ∷ s) (y ∷ p) h = ground (arith, append-slice_from s p)

pub starts_with-nil : (s : Text) → starts_with s [] ≡ true
unfolding starts_with
starts_with-nil [] = refl
starts_with-nil (x ∷ s) = refl

pub starts_with-prefix : (s p q : Text) → starts_with s (p ++ q) ≡ true → starts_with s p ≡ true
unfolding starts_with
starts_with-prefix s [] q h = starts_with-nil s
starts_with-prefix [] (y ∷ p) q h = cc
starts_with-prefix (x ∷ s) (y ∷ p) q h = ground (arith, starts_with-prefix s p q)

pub includes_front : (s t : Text) → starts_with s t ≡ true → includes s t ≡ true
unfolding includes
includes_front [] t h = h
includes_front (c ∷ s) t h = ground arith

pub includes-append : (p s t : Text) → includes s t ≡ true → includes (p ++ s) t ≡ true
unfolding includes
includes-append [] s t h = h
includes-append (c ∷ p) s t h = ground (arith, includes-append p s t)

-- A text in the middle of another.
pub includes_middle : (p t s : Text) → includes (p ++ (t ++ s)) t ≡ true
includes_middle p t s =
    includes-append p (t ++ s) t (includes_front (t ++ s) t (starts_with-append t s))

pub is_some-cut_at : (t s : Text) → is_some (cut_at t s) ≡ includes s t
unfolding cut_at includes
is_some-cut_at t [] = ground arith
is_some-cut_at t (c ∷ s) = ground (arith, is_some-cut_at t s)

pub cut_at_lem :
    (t s before at : Text)
    → cut_at t s ≡ some (before, at)
    → (before ++ at ≡ s) × (starts_with at t ≡ true)
unfolding cut_at
cut_at_lem t [] before at h = ground arith
cut_at_lem t (c ∷ s) before at h = elim (Option-cases (cut_at t s)) [
  | inl absent ↦ ground arith
  | inr ((b, a), found) ↦ ground (arith, cut_at_lem t s b a found)
]
