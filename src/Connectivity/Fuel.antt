-- ===== src/Connectivity/Fuel.antt =====
-- The bulk handler of src/services/connectivity-debug-protocols-service.ts ends on every finite
-- stream.
use orbitdb_relay.Prelude.{
  ℕ, zero, suc, ◌+◌, ◌-◌, ◌≤◌, ◌<◌, Bytes, true, Option, none, some, ◌≡◌, refl, List, [], ◌∷◌, ◌++◌,
  ltb, leb, ◌==◌, length, take, drop, arith, ◌⊎◌, inl, inr, Bool-cases, length-append, is_some,
}
use orbitdb_relay.Connectivity.Reader.{
  Item, item_next, timeout_ms, timeout_failure, stream_ended, thrown, chunk, done, throws, Answer,
  Timeouts, Failure, Read, fails, reads, carries, stops, next_chunk, read_on, read_exactly,
  decode_u32be, frame_body, read_framed_chunk, yield_frame, bulk_frames, End,
}
use orbitdb_relay.Connectivity.Chunks.{content, item_bytes}

-- No more than `k` bytes come out of the read, those left over included.
abbrev Shrinks : ℕ → Read → Type 0
Shrinks k (fails failure) = Unit
Shrinks k (reads bytes carry answers) = length bytes + length carry + length (content answers) ≤ k

length-take-drop : (n : ℕ) (xs : Bytes) → length (take n xs) + length (drop n xs) ≡ length xs
length-take-drop zero xs = omega arith
length-take-drop (suc n) [] = omega arith
length-take-drop (suc n) (x ∷ xs) = omega (arith, length-take-drop n xs)

item_next-cases :
    (i : Item)
    → (item_next i ≡ carries (item_bytes i)) ⊎ ((failure : Failure) × (item_next i ≡ stops failure))
item_next-cases (chunk bytes) = inl refl
item_next-cases done = inr (stream_ended, refl)
item_next-cases (throws message) = inr (thrown message, refl)

-- Either the chunk of an answer, or a failure.
next_chunk-cases :
    (t : Timeouts) (a : Answer)
    → (next_chunk t a ≡ carries (item_bytes a.item))
      ⊎ ((failure : Failure) × (next_chunk t a ≡ stops failure))
unfolding next_chunk
next_chunk-cases t a = elim (Bool-cases (ltb a.wait (timeout_ms t a.idle))) [
  | inl timely ↦ rw timely (item_next-cases a.item)
  | inr late ↦ rw late (inr (timeout_failure t a.idle, refl))
]

read_on-Shrinks :
    (t : Timeouts) (n : ℕ) (out carry : Bytes) (answers : List Answer) (k : ℕ)
    → length out + length carry + length (content answers) ≤ k
    → Shrinks k (read_on t n out carry answers)
unfolding read_on
read_on-Shrinks t n out carry [] k h =
    ground (arith, length-append out (take n carry), length-take-drop n carry)
read_on-Shrinks t n out carry (a ∷ answers) k h = elim (Bool-cases (leb n (length carry))) [
  | inl fits ↦ rw fits (ground (arith, length-append out (take n carry), length-take-drop n carry))
  | inr more ↦ elim (next_chunk-cases t a) [
    | inl next ↦
        rw (more, next)
          (read_on-Shrinks t (n - length carry) (out ++ carry) (item_bytes a.item) answers k (
            omega (
              arith,
              length-append out carry,
              length-append (item_bytes a.item) (content answers),
            )))
    | inr (failure, next) ↦ rw (more, next) tt
  ]
]

frame_body-Shrinks :
    (t : Timeouts) (m n : ℕ) (carry : Bytes) (answers : List Answer) (k : ℕ)
    → length carry + length (content answers) ≤ k
    → Shrinks k (frame_body t m n carry answers)
unfolding frame_body read_exactly
frame_body-Shrinks t m n carry answers k h = elim (Bool-cases (ltb m n)) [
  | inl above ↦ rw above tt
  | inr allowed ↦ elim (Bool-cases (n == 0)) [
    | inl empty ↦ rw (allowed, empty) (omega arith)
    | inr full ↦ rw (allowed, full) (read_on-Shrinks t n [] carry answers k (omega arith))
  ]
]

read_framed_chunk-Shrinks :
    (t : Timeouts) (m : ℕ) (carry : Bytes) (answers : List Answer) (k : ℕ)
    → length carry + length (content answers) ≤ k
    → Shrinks k (read_framed_chunk t m carry answers)
unfolding read_framed_chunk read_exactly
read_framed_chunk-Shrinks t m carry answers k h =
    behind (read_on t 4 [] carry answers) (read_on-Shrinks t 4 [] carry answers k (omega arith))
  where
    behind :
        (read : Read)
        → Shrinks k read
        → Shrinks k (elim read [
          | fails failure ↦ fails failure
          | reads header carry' answers' ↦ frame_body t m (decode_u32be header) carry' answers'
        ])
    behind (fails failure) h = tt
    behind (reads header carry' answers') h =
        frame_body-Shrinks t m (decode_u32be header) carry' answers' k (omega arith)

is_some-yield :
    (payload : Bytes) (r : Option (List Bytes × End)) → is_some (yield_frame payload r) ≡ is_some r
is_some-yield payload none = refl
is_some-yield payload (some (frames, end)) = refl

-- The bulk handler ends on every finite stream, whatever it carries and however late: with more
-- fuel than there are bytes, the loop comes to an end.
pub bulk_frames-ends_always :
    (fuel : ℕ) (t : Timeouts) (m : ℕ) (carry : Bytes) (answers : List Answer)
    → length carry + length (content answers) < fuel
    → is_some (bulk_frames fuel t m carry answers) ≡ true
unfolding bulk_frames
bulk_frames-ends_always zero t m carry answers h = absurd (omega arith)
bulk_frames-ends_always (suc fuel) t m carry answers h =
    loop (read_framed_chunk t m carry answers)
      (read_framed_chunk-Shrinks t m carry answers fuel (omega arith))
      (bulk_frames-ends_always fuel t m)
  where
    loop :
        (read : Read)
        → Shrinks fuel read
        → ((carry' : Bytes) (answers' : List Answer)
            → length carry' + length (content answers') < fuel
            → is_some (bulk_frames fuel t m carry' answers') ≡ true)
        → is_some {A = List Bytes × End} (elim read [
          | fails failure ↦ some ([], End.failed failure)
          | reads payload carry' answers' ↦ elim payload [
            | [] ↦ some ([], End.returned)
            | b ∷ bytes ↦ yield_frame (b ∷ bytes) (bulk_frames fuel t m carry' answers')
          ]
        ])
          ≡ true
    loop (fails failure) h ih = refl
    loop (reads [] carry' answers') h ih = refl
    loop (reads (b ∷ bytes) carry' answers') h ih =
        rw (is_some-yield (b ∷ bytes) (bulk_frames fuel t m carry' answers'))
          (ih carry' answers' (omega arith))
