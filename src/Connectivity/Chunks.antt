-- ===== src/Connectivity/Chunks.antt =====
-- What a stream of src/services/connectivity-debug-protocols-service.ts carries, and what its
-- reader makes of it whatever way the bytes are cut into chunks.
use mathlib.Core.List.{append_assoc}
use orbitdb_relay.Prelude.{
  ℕ, zero, suc, ◌-◌, ◌≤◌, ◌<◌, Bytes, Bool, true, false, ◌≡◌, refl, sym, ap, List, [], ◌∷◌, ◌++◌,
  ◌&&◌, ltb, leb, length, take, drop, all, arith, inl, inr, Bool-cases, length-append, drop-append,
  and_both,
}
use orbitdb_relay.Connectivity.Reader.{
  Item, chunk, Answer, Timeouts, stream_ended, Read, fails, reads, carries, timeout_ms, next_chunk,
  read_on, read_exactly,
}

abbrev pub item_bytes : Item → Bytes
item_bytes (chunk bytes) = bytes
item_bytes _ = []

abbrev pub content : List Answer → Bytes
content [] = []
content (a ∷ answers) = item_bytes a.item ++ content answers

abbrev pub is_chunk : Item → Bool
is_chunk (chunk bytes) = true
is_chunk _ = false

-- A chunk that comes before the reader gives up.
abbrev pub is_timely : Timeouts → Answer → Bool
is_timely t a = is_chunk a.item && ltb a.wait (timeout_ms t a.idle)

abbrev pub AreTimely : Timeouts → List Answer → Type 0
AreTimely t answers = all (is_timely t) answers ≡ true

-- A read that gives these bytes, with the rest of what the stream carries left over.
abbrev pub Gives : Timeouts → Bytes → Bytes → Read → Type 0
Gives t wanted rest (fails failure) = ⊥
Gives t wanted rest (reads bytes carry answers) =
    (bytes ≡ wanted) × (carry ++ content answers ≡ rest) × AreTimely t answers

take-append_le :
    (n : ℕ) (xs ys : Bytes)
    → n ≤ length xs
    → (take n (xs ++ ys) ≡ take n xs) × (drop n (xs ++ ys) ≡ drop n xs ++ ys)
take-append_le zero xs ys h = (refl, refl)
take-append_le (suc n) [] ys h = absurd (omega arith)
take-append_le (suc n) (x ∷ xs) ys h = ground (arith, take-append_le n xs ys)

take-append_ge :
    (n : ℕ) (xs ys : Bytes)
    → length xs ≤ n
    → (take n (xs ++ ys) ≡ xs ++ take (n - length xs) ys)
      × (drop n (xs ++ ys) ≡ drop (n - length xs) ys)
take-append_ge n [] ys h =
    let e : n - 0 ≡ n = omega arith in (ap (λ m. take m ys) (sym e), ap (λ m. drop m ys) (sym e))
take-append_ge zero (x ∷ xs) ys h = absurd (omega arith)
take-append_ge (suc n) (x ∷ xs) ys h =
    let e : suc n - suc (length xs) ≡ n - length xs = omega arith in
    let (taken, dropped) = take-append_ge n xs ys (omega arith) in
    rw e (ap (λ zs. x ∷ zs) taken, dropped)

next_chunk-timely :
    (t : Timeouts) (a : Answer)
    → is_timely t a ≡ true
    → next_chunk t a ≡ carries (item_bytes a.item)
unfolding next_chunk
next_chunk-timely t a h = ground arith

read_on-Gives :
    (t : Timeouts) (n : ℕ) (out carry : Bytes) (answers : List Answer)
    → AreTimely t answers
    → n ≤ length (carry ++ content answers)
    → Gives t
        (out ++ take n (carry ++ content answers))
        (drop n (carry ++ content answers))
        (read_on t n out carry answers)
unfolding read_on
read_on-Gives t n out carry [] h enough = elim (Bool-cases (leb n (length carry))) [
  | inl fits ↦
      let (taken, dropped) = take-append_le n carry [] (ground arith) in
      rw (fits, taken, dropped) (refl, refl, h)
  | inr more ↦ absurd (ground (arith, length-append carry []))
]
read_on-Gives t n out carry (a ∷ answers) h enough = elim (Bool-cases (leb n (length carry))) [
  | inl fits ↦
      let (taken, dropped) = take-append_le n carry (content (a ∷ answers)) (ground arith) in
      rw (fits, taken, dropped) (refl, refl, h)
  | inr more ↦
      let (timely, later) = and_both (is_timely t a) (all (is_timely t) answers) h in
      let (taken, dropped) = take-append_ge n carry (content (a ∷ answers)) (ground arith) in
      rw (more, next_chunk-timely t a timely, taken, dropped, ← append_assoc out carry _)
        (read_on-Gives t (n - length carry) (out ++ carry) (item_bytes a.item) answers later
          (omega (arith, enough, length-append carry (content (a ∷ answers)))))
]

read_on-short :
    (t : Timeouts) (n : ℕ) (out carry : Bytes) (answers : List Answer)
    → AreTimely t answers
    → length (carry ++ content answers) < n
    → read_on t n out carry answers ≡ fails stream_ended
unfolding read_on
read_on-short t n out carry [] h short = ground (arith, length-append carry [])
read_on-short t n out carry (a ∷ answers) h short = ground (
  arith,
  next_chunk-timely t a,
  and_both (is_timely t a) (all (is_timely t) answers) h,
  length-append carry (item_bytes a.item ++ content answers),
  read_on-short t (n - length carry) (out ++ carry) (item_bytes a.item) answers,
)

take-append : (xs ys : Bytes) → take (length xs) (xs ++ ys) ≡ xs
take-append [] ys = refl
take-append (x ∷ xs) ys = ap (λ zs. x ∷ zs) (take-append xs ys)

-- A read gives what stands at the front of the stream, wherever the chunks end.
pub read_exactly-Gives :
    (t : Timeouts) (front rest carry : Bytes) (answers : List Answer)
    → AreTimely t answers
    → carry ++ content answers ≡ front ++ rest
    → Gives t front rest (read_exactly t (length front) carry answers)
unfolding read_exactly
read_exactly-Gives t front rest carry answers h same =
    let given =
      read_on-Gives t (length front) [] carry answers h
        (rw same (omega (arith, length-append front rest))) in
    rw (same, take-append front rest, drop-append front rest) at given

pub read_exactly-short :
    (t : Timeouts) (n : ℕ) (carry : Bytes) (answers : List Answer)
    → AreTimely t answers
    → length (carry ++ content answers) < n
    → read_exactly t n carry answers ≡ fails stream_ended
unfolding read_exactly
read_exactly-short t n carry answers h short = read_on-short t n [] carry answers h short
