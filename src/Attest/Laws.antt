-- ===== src/Attest/Laws.antt =====
-- Theorems about the header of a bridged stream in src/services/attest-bridge-service.ts.
use mathlib.Core.List.{append_assoc, append-nil}
use orbitdb_relay.Prelude.{
  ℕ, suc, ◌+◌, ◌≤◌, Text, Bytes, codes, Bool, true, false, Option, none, some, List, [], ◌∷◌, ◌++◌,
  if◌then◌else◌, ltb, ◌==◌, length, all, join, ◌≡◌, refl, ap, ◌∙◌, sym, not, arith, inl, inr,
  Bool-cases, Option-cases, and_both,
}
use orbitdb_relay.Values.{Value}
use orbitdb_relay.Attest.{
  chunk, Answer, Header, header, refused, cut_line, read_header, max_header_bytes,
  header_timeout_ms, Target, parse_attest_header, Taken, closes, bridges, bridge_to, take_header,
  take_up, sent_to_guest, sent_on,
}

abbrev pub chunk_of : Answer → Bytes
chunk_of a = elim a.item [ chunk bytes ↦ bytes | _ ↦ [] ]

abbrev pub content : List Answer → Bytes
content [] = []
content (a ∷ answers) = chunk_of a ++ content answers

cut_line-append :
    (s t line rest : Bytes)
    → cut_line s ≡ some (line, rest)
    → cut_line (s ++ t) ≡ some (line, rest ++ t)
unfolding cut_line
cut_line-append [] t line rest h = cc
cut_line-append (c ∷ s) t line rest h = elim (Bool-cases (c == 10)) [
  | inl feed ↦ ground arith
  | inr other ↦ elim (Option-cases (cut_line s)) [
    | inl absent ↦ absurd (ground arith)
    | inr ((l, r), found) ↦ ground (arith, cut_line-append s t l r found)
  ]
]

cut_line-length :
    (s t line rest : Bytes)
    → cut_line s ≡ none
    → cut_line (s ++ t) ≡ some (line, rest)
    → length s ≤ length line
unfolding cut_line
cut_line-length [] t line rest h cut = omega arith
cut_line-length (c ∷ s) t line rest h cut = elim (Bool-cases (c == 10)) [
  | inl feed ↦ absurd (ground arith)
  | inr other ↦ elim (Option-cases (cut_line (s ++ t))) [
    | inl absent ↦ absurd (ground arith)
    | inr ((l, r), found) ↦ ground (arith, cut_line-length s t l r)
  ]
]

-- A chunk that comes before the time for the header is over.
abbrev pub is_timely : Answer → Bool
is_timely a = elim a.item [ chunk bytes ↦ ltb (a.asked_at + a.wait) header_timeout_ms | _ ↦ false ]

abbrev pub is_chunk : Answer → Bool
is_chunk a = elim a.item [ chunk bytes ↦ true | _ ↦ false ]

abbrev pub Splits : Bytes → Bytes → Header → Type 0
Splits line rest (refused why) = ⊥
Splits line rest (header l r answers) =
    (l ≡ line) × (r ++ content answers ≡ rest) × (all is_chunk answers ≡ true)

-- What the loop does with a chunk.
abbrev pub after_chunk : Bytes → List Answer → Option (Bytes × Bytes) → Header
after_chunk buffered answers (some (line, rest)) = header line rest answers
after_chunk buffered answers none =
    if ltb max_header_bytes (length buffered)
    then refused (codes "header too long")
    else read_header buffered answers

read_header-timely :
    (buffered : Bytes) (a : Answer) (answers : List Answer)
    → is_timely a ≡ true
    → read_header buffered (a ∷ answers)
      ≡ after_chunk (buffered ++ chunk_of a) answers (cut_line (buffered ++ chunk_of a))
unfolding read_header
read_header-timely buffered a answers timely = ground arith

cut_line-line :
    (line rest : Bytes)
    → all (λ c. not (c == 10)) line ≡ true
    → cut_line (line ++ 10 ∷ rest) ≡ some (line, rest)
unfolding cut_line
cut_line-line [] rest plain = refl
cut_line-line (c ∷ line) rest plain = ground (arith, plain, cut_line-line line rest)

content-append :
    (early late : List Answer) → content (early ++ late) ≡ content early ++ content late
content-append [] late = refl
content-append (a ∷ early) late =
    ap (λ s. chunk_of a ++ s) (content-append early late)
    ∙ sym (append_assoc (chunk_of a) (content early) (content late))

timely-is_chunk :
    (early late : List Answer)
    → all is_timely early ≡ true
    → all is_chunk late ≡ true
    → all is_chunk (early ++ late) ≡ true
timely-is_chunk [] late timely chunks = chunks
timely-is_chunk (a ∷ early) late timely chunks =
    ground (arith, timely, timely-is_chunk early late, chunks)

-- The header ends in the chunk that was read last.
found-Splits :
    (early late : List Answer) (buffered line rest l r : Bytes)
    → all is_timely early ≡ true
    → all is_chunk late ≡ true
    → cut_line buffered ≡ some (l, r)
    → cut_line (buffered ++ content early) ≡ some (line, rest)
    → Splits line (rest ++ content late) (header l r (early ++ late))
found-Splits early late buffered line rest l r timely chunks found cut =
    let same = cut_line-append buffered (content early) l r found in
    let behind : (r ++ content early) ≡ rest = ground (arith, same, cut) in
    (
      ground (arith, same, cut),
      ap (λ s. r ++ s) (content-append early late)
          ∙ sym (append_assoc r (content early) (content late))
          ∙ ap (λ s. s ++ content late) behind,
      timely-is_chunk early late timely chunks,
    )

read_header-Splits :
    (buffered : Bytes) (early late : List Answer) (line rest : Bytes)
    → all is_timely early ≡ true
    → all is_chunk late ≡ true
    → cut_line buffered ≡ none
    → cut_line (buffered ++ content early) ≡ some (line, rest)
    → length line ≤ max_header_bytes
    → Splits line (rest ++ content late) (read_header buffered (early ++ late))
read_header-Splits buffered [] late line rest timely chunks uncut cut short =
    absurd (ground (arith, append-nil buffered))
read_header-Splits buffered (a ∷ early) late line rest h chunks uncut cut short =
    let (timely, later) = and_both (is_timely a) (all is_timely early) h in
    let cut' : cut_line ((buffered ++ chunk_of a) ++ content early) ≡ some (line, rest) =
      rw (append_assoc buffered (chunk_of a) (content early)) cut in
    rw (read_header-timely buffered a (early ++ late) timely)
      elim (Option-cases (cut_line (buffered ++ chunk_of a))) [
        | inl open_line ↦
            let fits : ltb max_header_bytes (length (buffered ++ chunk_of a)) ≡ false = ground (
              arith,
              cut_line-length (buffered ++ chunk_of a) (content early) line rest open_line cut',
            ) in
            rw (open_line, fits)
              (read_header-Splits (buffered ++ chunk_of a) early late line rest later chunks
                open_line cut' short)
        | inr ((l, r), found) ↦
            rw found (
              found-Splits early late (buffered ++ chunk_of a) line rest l r later chunks found
                cut')
      ]

sent_on-join :
    (answers : List Answer) (i : ℕ)
    → all is_chunk answers ≡ true
    → join (sent_on (λ j. false) i answers) ≡ content answers
unfolding sent_on
sent_on-join [] i timely = refl
sent_on-join (a ∷ answers) i timely = ground (arith, sent_on-join answers (suc i))

sent_to_guest-join :
    (rest : Bytes) (answers : List Answer)
    → all is_chunk answers ≡ true
    → join (sent_to_guest (λ j. false) rest answers) ≡ rest ++ content answers
unfolding sent_to_guest
sent_to_guest-join [] answers timely = sent_on-join answers 0 timely
sent_to_guest-join (b ∷ rest) answers timely =
    ap (λ t. (b ∷ rest) ++ t) (sent_on-join answers 0 timely)

-- A stream whose header names this target is bridged to it and loses no byte behind the header,
-- unless the other side ends the bridge; one whose header names none is closed.
abbrev pub Forwards : Option Target → Text → Bytes → Taken → Type 0
Forwards none client rest taken = taken ≡ closes (codes "bad header")
Forwards (some target) client rest (closes why) = ⊥
Forwards (some target) client rest (bridges t c r answers) =
    (t ≡ target) × (c ≡ client) × (join (sent_to_guest (λ i. false) r answers) ≡ rest)

bridge_to-Forwards :
    (found : Option Target) (client : Text) (r rest : Bytes) (answers : List Answer)
    → r ++ content answers ≡ rest
    → all is_chunk answers ≡ true
    → Forwards found client rest (bridge_to client r answers found)
bridge_to-Forwards none client r rest answers same timely = refl
bridge_to-Forwards (some target) client r rest answers same timely =
    (refl, refl, sent_to_guest-join r answers timely ∙ same)

module _ (decode : Bytes → Text) (parse_json : Text → Option Value) (print : Value → Text) where
  take_header-Forwards :
      (h : Header) (client : Text) (line rest : Bytes)
      → Splits line rest h
      → Forwards
          (parse_attest_header parse_json print (decode line))
          client
          rest
          (take_header decode parse_json print client h)
  take_header-Forwards (refused why) client line rest split = absurd split
  take_header-Forwards (header l r answers) client line rest split =
      let (same_line, same, timely) = split in
      rw (← same_line) (
        bridge_to-Forwards (parse_attest_header parse_json print (decode l)) client r rest answers
          same timely)

  -- A stream whose first chunks come within 10 s and have a line feed behind at most 512 bytes of a
  -- first line is taken up by what that line names, wherever the chunks are cut and whenever those
  -- behind the header come: it is bridged for this client to the target that the line names, and
  -- what is sent to the guest, once the bridge is open and while the other side does not end it, is
  -- exactly what stands behind the line feed; or it is closed with `bad header` where the line
  -- names no target.
  pub take_up-Forwards :
      (client : Text) (early late : List Answer) (line rest : Bytes)
      → all is_timely early ≡ true
      → all is_chunk late ≡ true
      → all (λ c. not (c == 10)) line ≡ true
      → length line ≤ 512
      → content early ≡ line ++ 10 ∷ rest
      → Forwards
          (parse_attest_header parse_json print (decode line))
          client
          (rest ++ content late)
          (take_up decode parse_json print client (early ++ late))
  unfolding take_up cut_line
  take_up-Forwards client early late line rest timely chunks plain short whole =
      take_header-Forwards (read_header [] (early ++ late)) client line (rest ++ content late) (
        read_header-Splits [] early late line rest timely chunks refl
          (rw whole (cut_line-line line rest plain)) short)
