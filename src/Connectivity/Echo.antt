-- ===== src/Connectivity/Echo.antt =====
-- Theorems about the echo protocol of src/services/connectivity-debug-protocols-service.ts and
-- about the start and the stop of its service.
use mathlib.Core.List.{append_assoc, append-nil}
use orbitdb_relay.Prelude.{
  Text, text_eq, join, Bool, true, false, none, some, List, [], ◌∷◌, ◌++◌, map, ◌==◌, get_or, not,
  ◌||◌, ◌&&◌, ◌≡◌, refl, arith, Option-cases, inl, inr, Bool-cases,
}
use orbitdb_relay.Prelude.TextSet
use orbitdb_relay.Exposure.{trim}
use orbitdb_relay.Connectivity.{
  first_line, read_line, echo, echo_reply, Init, Connectivity, after_start, before_stop, handle,
  unhandle, connectivity_echo_protocol, connectivity_bulk_protocol,
}

first_line-append :
    (s t : Text) (line : Text) → first_line s ≡ some line → first_line (s ++ t) ≡ some line
unfolding first_line
first_line-append [] t line h = cc
first_line-append (c ∷ s) t line h = elim (Bool-cases (c == 10)) [
  | inl feed ↦ rw feed (rw feed at h)
  | inr other ↦ elim (Option-cases (first_line s)) [
    | inl none_there ↦ cc (rw (other, none_there) at h)
    | inr (found, e) ↦ rw (other, first_line-append s t found e) (rw (other, e) at h)
  ]
]

read_line-join :
    (buf : Text) (pieces : List Text)
    → first_line buf ≡ none
    → read_line buf (map (λ s. some s) pieces)
      ≡ some (trim (get_or (first_line (buf ++ join pieces)) (buf ++ join pieces)))
unfolding read_line
read_line-join buf [] h = rw (append-nil buf, h) refl
read_line-join buf (piece ∷ pieces) h = elim (Option-cases (first_line (buf ++ piece))) [
  | inl more ↦
      rw (more, read_line, ← append_assoc buf piece (join pieces))
        (read_line-join (buf ++ piece) pieces more)
  | inr (line, found) ↦
      rw
        (
          found,
          read_line,
          ← append_assoc buf piece (join pieces),
          first_line-append (buf ++ piece) (join pieces) line found,
        )
        refl
]

-- The echo protocol answers with the first line that the client wrote, or with all that it wrote
-- where no line ended, without the blanks around it, whatever way the text arrived in pieces.
echo-join :
    (pieces : List Text)
    → echo (map (λ s. some s) pieces)
      ≡ some (echo_reply (trim (get_or (first_line (join pieces)) (join pieces))))
unfolding echo first_line
echo-join pieces = rw (read_line-join [] pieces refl, echo) refl

abbrev pub is_offered : Init → Text → Bool
is_offered init p =
    (init.echo_enabled && text_eq connectivity_echo_protocol p)
    || (init.bulk.enabled && text_eq connectivity_bulk_protocol p)

has-handle :
    (accepts : Text → Bool) (on : Bool) (q p : Text) (s t : Connectivity)
    → handle accepts on q s ≡ some t
    → TextSet.has p t.handled ≡ (TextSet.has p s.handled || (on && text_eq q p))
has-handle accepts false q p s t h = ground arith
has-handle accepts true q p s t h = ground (arith, TextSet.has-add p q s.handled)

has-unhandle :
    (on : Bool) (q p : Text) (handled : TextSet.TextSet)
    → TextSet.has p (unhandle on q handled) ≡ (TextSet.has p handled && not (on && text_eq q p))
has-unhandle false q p handled = ground arith
has-unhandle true q p handled = ground (arith, TextSet.has-delete p q handled)

after_start-through :
    (accepts : Text → Bool) (init : Init) (s : Connectivity)
    → s.started ≡ false
    → (after_start accepts init s).0 ≡ true
    → (t u : Connectivity) × (handle accepts init.echo_enabled connectivity_echo_protocol s
        ≡ some t)
      × (handle accepts init.bulk.enabled connectivity_bulk_protocol t ≡ some u)
      × ((after_start accepts init s).1 ≡ record u { started = true })
unfolding after_start
after_start-through accepts init s stopped through =
    elim (Option-cases (handle accepts init.echo_enabled connectivity_echo_protocol s)) [
      | inl refused ↦ absurd (ground arith)
      | inr (t, echoes) ↦
          elim (Option-cases (handle accepts init.bulk.enabled connectivity_bulk_protocol t)) [
            | inl refused ↦ absurd (ground arith)
            | inr (u, bulks) ↦ (t, u, echoes, bulks, ground arith)
          ]
    ]

-- A start that goes through registers exactly the protocols that are enabled, beside those that are
-- there, and the stop that follows removes exactly them.
has-after_start :
    (accepts : Text → Bool) (init : Init) (s : Connectivity) (p : Text)
    → s.started ≡ false
    → (after_start accepts init s).0 ≡ true
    → (TextSet.has p (after_start accepts init s).1.handled
        ≡ (TextSet.has p s.handled || is_offered init p))
      × (TextSet.has p (before_stop init (after_start accepts init s).1).handled
          ≡ (TextSet.has p s.handled && not (is_offered init p)))
unfolding before_stop
has-after_start accepts init s p stopped through =
    let (t, u, echoes, bulks, result) = after_start-through accepts init s stopped through in
    ground (
      arith,
      has-handle accepts init.echo_enabled connectivity_echo_protocol p s t,
      has-handle accepts init.bulk.enabled connectivity_bulk_protocol p t u,
      has-unhandle init.echo_enabled connectivity_echo_protocol p u.handled,
      has-unhandle init.bulk.enabled connectivity_bulk_protocol p
          (unhandle init.echo_enabled connectivity_echo_protocol u.handled),
    )
