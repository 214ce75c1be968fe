-- ===== src/Exposure.antt =====
-- src/config/pinning-exposure-env.ts: what the pinning endpoints may say about the records they
-- hold. The value of the environment variable is an argument.
use orbitdb_relay.Prelude.{
  ℕ, ◌+◌, Text, codes, text_eq, Bool, true, false, Option, none, some, [], ◌∷◌, ◌&&◌, ◌||◌,
  if◌then◌else◌, leb, ◌==◌, map,
}
use orbitdb_relay.Values.{null, bool, Fields, field, end, lookup, coalesce}
use orbitdb_relay.Peers.{is_empty}

-- The code units that `trim` strips: white space and line ends.
abbrev pub is_space : ℕ → Bool
is_space c =
    (leb 9 c && leb c 13)
    || c == 32
    || c == 160
    || c == 0x1680
    || (leb 0x2000 c && leb c 0x200a)
    || c == 0x2028
    || c == 0x2029
    || c == 0x202f
    || c == 0x205f
    || c == 0x3000
    || c == 0xfeff

unfoldable pub trim_start : Text → Text
trim_start [] = []
trim_start (c ∷ s) = let rest = trim_start s in if is_space c then rest else c ∷ s

unfoldable pub trim_end : Text → Text
trim_end [] = []
trim_end (c ∷ s) = let rest = trim_end s in if is_space c && is_empty rest then [] else c ∷ rest

-- `s.trim()`
abbrev pub trim : Text → Text
trim s = trim_end (trim_start s)

-- `toLowerCase` of the letters that stand in "true".
abbrev pub lower : ℕ → ℕ
lower c = if leb 65 c && leb c 90 then c + 32 else c

unfoldable pub are_record_values_exposed : Option Text → Bool
are_record_values_exposed none = false
are_record_values_exposed (some raw) =
    let v = map lower (trim raw) in text_eq v (codes "1") || text_eq v (codes "true")

unfoldable pub redact_last_record : Bool → Option Fields → Option Fields
redact_last_record exposed none = none
redact_last_record exposed (some record_) =
    if exposed
    then some record_
    else some (
        field (codes "hash") (coalesce (lookup (codes "hash") record_) null)
          (field (codes "redacted") (bool true) end))
