-- ===== src/Http/Bodies.antt =====
-- Theorems about the body and the origin of a request to src/http/pinning-http.ts.
use orbitdb_relay.Prelude.{
  ◌≤◌, Text, text_eq_iff, true, Option, none, some, List, [], ◌∷◌, ◌++◌, ◌≡◌, ◌≢◌, ◌↔◌, refl, sym,
  ap, arith, length, length-append, if◌then◌else◌, leb, ltb, Bool-cases, inl, inr,
}
use orbitdb_relay.Prelude.TextSet
use orbitdb_relay.Http.{listed, allow_origin, read_chunks, Bytes, max_json_body_bytes}

append_nil : (xs : Bytes) → xs ++ [] ≡ xs
append_nil [] = refl
append_nil (x ∷ xs) = ap (λ ys. x ∷ ys) (append_nil xs)

append_assoc : (xs ys zs : Bytes) → (xs ++ ys) ++ zs ≡ xs ++ (ys ++ zs)
append_assoc [] ys zs = refl
append_assoc (x ∷ xs) ys zs = ap (λ s. x ∷ s) (append_assoc xs ys zs)

abbrev pub joined : List Bytes → Bytes
joined [] = []
joined (chunk ∷ chunks) = chunk ++ joined chunks

-- A chunked body is read exactly when it is no longer than the limit, and then whole.
read_chunks_lem :
    (read : Bytes) (chunks : List Bytes)
    → length read ≤ max_json_body_bytes
    → read_chunks read chunks ≡ (
        if leb (length (read ++ joined chunks)) max_json_body_bytes
        then some (read ++ joined chunks)
        else none)
unfolding read_chunks
read_chunks_lem read [] small = rw (append_nil read) (ground (arith, small))
read_chunks_lem read (chunk ∷ chunks) small =
    elim (Bool-cases (ltb max_json_body_bytes (length (read ++ chunk)))) [
      | inl over ↦
          rw (over, sym (append_assoc read chunk (joined chunks)))
            (ground (arith, over, length-append (read ++ chunk) (joined chunks)))
      | inr fits ↦
          rw (fits, sym (append_assoc read chunk (joined chunks)))
            (read_chunks_lem (read ++ chunk) chunks (ground (arith, fits)))
    ]

-- A browser of another origin is let in exactly when all origins are, or its origin is listed.
allow_origin_iff :
    (origins : List Text) (request_origin : Option Text) (origin : Text)
    → (allow_origin (listed origins) request_origin ≡ some origin)
      ↔ ((request_origin ≡ some origin) × (origin ≢ []) × (TextSet.has origin origins ≡ true))
unfolding allow_origin
allow_origin_iff origins none origin = (λ e. cc, λ h. cc)
allow_origin_iff origins (some r) origin = (
  λ e. ground (arith, e, text_eq_iff r []),
  λ (same, named, has). ground (arith, same, named, has, text_eq_iff r []),
)
