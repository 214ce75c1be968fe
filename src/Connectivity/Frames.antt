-- ===== src/Connectivity/Frames.antt =====
-- Theorems about the frames of the bulk protocol of
-- src/services/connectivity-debug-protocols-service.ts.
use mathlib.Core.List.{append_assoc}
use orbitdb_relay.Prelude.{
  ℕ, zero, suc, ◌^◌, ◌≤◌, ◌<◌, Bytes, true, false, Option, none, some, ◌≡◌, refl, ◌∙◌, List, [],
  ◌∷◌, ◌++◌, map, ltb, ◌==◌, length, take, drop, All, arith,
}
use orbitdb_relay.Connectivity.Reader.{
  Answer, Timeouts, stream_ended, Read, fails, reads, read_exactly, encode_u32be, decode_u32be,
  encode_frame, frame_body, read_framed_chunk, frame_too_long, End, returned, failed, yield_frame,
  bulk_frames,
}
use orbitdb_relay.Connectivity.Chunks.{
  content, AreTimely, Gives, read_exactly-Gives, read_exactly-short,
}

abbrev pub IsPayload : ℕ → Bytes → Type 0
IsPayload max_frame_bytes payload = (0 < length payload) × (length payload ≤ max_frame_bytes)

-- What follows the frames on a stream, and how the handler ends on it.
pub data Tail (max_frame_bytes : ℕ) : Bytes → End → Type 0 where
  closes : (r : Bytes) → Tail max_frame_bytes (encode_u32be 0 ++ r) returned
  too_long :
      (n : ℕ) (r : Bytes)
      → max_frame_bytes < n
      → n < 2 ^ 32
      → Tail max_frame_bytes (encode_u32be n ++ r) (failed (frame_too_long n))
  cut_header : (r : Bytes) → length r < 4 → Tail max_frame_bytes r (failed stream_ended)
  cut_body :
      (n : ℕ) (r : Bytes)
      → n ≤ max_frame_bytes
      → length r < n
      → Tail max_frame_bytes (encode_u32be n ++ r) (failed stream_ended)

abbrev pub join_frames : List Bytes → Bytes → Bytes
join_frames [] tail = tail
join_frames (payload ∷ payloads) tail = encode_frame payload ++ join_frames payloads tail

decode-encode : (n : ℕ) → n < 2 ^ 32 → decode_u32be (encode_u32be n) ≡ n
unfolding encode_u32be decode_u32be
decode-encode n h = omega arith

take-header :
    (n : ℕ) (r : Bytes)
    → (take 4 (encode_u32be n ++ r) ≡ encode_u32be n) × (drop 4 (encode_u32be n ++ r) ≡ r)
unfolding encode_u32be
take-header n r = (refl, refl)

-- What is read behind a header.
abbrev AfterHeader : Timeouts → ℕ → ℕ → Bytes → Read → Type 0
AfterHeader t max_frame_bytes n r read =
    (carry : Bytes) × (answers : List Answer) × (read
      ≡ frame_body t max_frame_bytes n carry answers)
    × (carry ++ content answers ≡ r)
    × AreTimely t answers

read_header_of :
    (t : Timeouts) (m n : ℕ) (r : Bytes) (read : Read)
    → n < 2 ^ 32
    → Gives t (encode_u32be n) r read
    → AfterHeader t m n r (elim read [
      | fails failure ↦ fails failure
      | reads header carry answers ↦ frame_body t m (decode_u32be header) carry answers
    ])
read_header_of t m n r (fails failure) fits h = absurd h
read_header_of t m n r (reads header carry answers) fits (same, rest, timely) =
    (carry, answers, rw (same, decode-encode n fits) refl, rest, timely)

read_header :
    (t : Timeouts) (m n : ℕ) (r carry : Bytes) (answers : List Answer)
    → n < 2 ^ 32
    → AreTimely t answers
    → carry ++ content answers ≡ encode_u32be n ++ r
    → AfterHeader t m n r (read_framed_chunk t m carry answers)
unfolding read_framed_chunk encode_u32be
read_header t m n r carry answers fits timely same =
    read_header_of t m n r (read_exactly t 4 carry answers) fits
      (read_exactly-Gives t (encode_u32be n) r carry answers timely same)

frame_body-Gives :
    (t : Timeouts) (m : ℕ) (payload rest carry : Bytes) (answers : List Answer)
    → length payload ≤ m
    → AreTimely t answers
    → carry ++ content answers ≡ payload ++ rest
    → Gives t payload rest (frame_body t m (length payload) carry answers)
unfolding frame_body
frame_body-Gives t m [] rest carry answers fits timely same =
    let allowed : ltb m 0 ≡ false = ground arith in rw allowed (refl, same, timely)
frame_body-Gives t m (b ∷ payload) rest carry answers fits timely same =
    let allowed : ltb m (length (b ∷ payload)) ≡ false = ground arith in
    let full : (length (b ∷ payload) == 0) ≡ false = ground arith in
    rw (allowed, full) (read_exactly-Gives t (b ∷ payload) rest carry answers timely same)

read_framed_chunk-Gives :
    (t : Timeouts) (m : ℕ) (payload rest carry : Bytes) (answers : List Answer)
    → m < 2 ^ 32
    → length payload ≤ m
    → AreTimely t answers
    → carry ++ content answers ≡ encode_frame payload ++ rest
    → Gives t payload rest (read_framed_chunk t m carry answers)
unfolding encode_frame
read_framed_chunk-Gives t m payload rest carry answers bound fits timely same =
    let header = encode_u32be (length payload) in
    let (carry', answers', read, rest', timely') =
      read_header t m (length payload) (payload ++ rest) carry answers (omega arith) timely
        (same ∙ append_assoc header payload rest) in
    rw read (frame_body-Gives t m payload rest carry' answers' fits timely' rest')

-- How the loop ends where no whole frame is to be had.
ends_of : Read → Option (List Bytes × End)
ends_of (fails failure) = some ([], failed failure)
ends_of (reads [] carry answers) = some ([], returned)
ends_of (reads (b ∷ bytes) carry answers) = none

bulk_frames-ends :
    (fuel : ℕ) (t : Timeouts) (m : ℕ) (carry : Bytes) (answers : List Answer) (e : End)
    → ends_of (read_framed_chunk t m carry answers) ≡ some ([], e)
    → bulk_frames (suc fuel) t m carry answers ≡ some ([], e)
unfolding bulk_frames ends_of
bulk_frames-ends fuel t m carry answers e h = ground arith

read_framed_chunk-Tail :
    (t : Timeouts) (m : ℕ) (tail carry : Bytes) (answers : List Answer) (e : End)
    → m < 2 ^ 32
    → Tail m tail e
    → AreTimely t answers
    → carry ++ content answers ≡ tail
    → ends_of (read_framed_chunk t m carry answers) ≡ some ([], e)
unfolding ends_of frame_body read_framed_chunk
read_framed_chunk-Tail t m _ carry answers _ bound (closes r) timely same =
    let (carry', answers', read, rest, timely') =
      read_header t m 0 r carry answers (omega arith) timely same in
    let allowed : ltb m 0 ≡ false = ground arith in rw (read, allowed) refl
read_framed_chunk-Tail t m _ carry answers _ bound (too_long n r above fits) timely same =
    let (carry', answers', read, rest, timely') =
      read_header t m n r carry answers fits timely same in
    let refused : ltb m n ≡ true = ground arith in rw (read, refused) refl
read_framed_chunk-Tail t m tail carry answers _ bound (cut_header _ short) timely same =
    rw (read_exactly-short t 4 carry answers timely (rw same short), read_framed_chunk) refl
read_framed_chunk-Tail t m _ carry answers _ bound (cut_body n r fits short) timely same =
    let (carry', answers', read, rest, timely') =
      read_header t m n r carry answers (omega arith) timely same in
    let allowed : ltb m n ≡ false = ground arith in
    let more : (n == 0) ≡ false = ground arith in
    rw (read, allowed, more, read_exactly-short t n carry' answers' timely' (rw rest short)) refl

bulk_frames-frame :
    (fuel : ℕ) (t : Timeouts) (m : ℕ) (payload rest carry : Bytes) (answers : List Answer)
    (read : Read)
    → 0 < length payload
    → Gives t payload rest read
    → read_framed_chunk t m carry answers ≡ read
    → (carry' : Bytes) × (answers' : List Answer) × (bulk_frames (suc fuel) t m carry answers
        ≡ yield_frame payload (bulk_frames fuel t m carry' answers'))
      × (carry' ++ content answers' ≡ rest)
      × AreTimely t answers'
unfolding bulk_frames
bulk_frames-frame fuel t m payload rest carry answers (fails failure) full h e = absurd h
bulk_frames-frame fuel t m [] rest carry answers (reads bytes c' a') full h e = absurd (omega arith)
bulk_frames-frame fuel t m (b ∷ payload) rest carry answers (reads bytes c' a') full
      (same, rest', timely) e =
    (c', a', rw (e, bulk_frames, same) refl, rest', timely)

-- The bulk protocol answers a stream with the frames that came whole, in their order, and ends the
-- way that what follows them says: it returns on an empty frame, and it fails where a frame is
-- longer than allowed or the stream ends before a header or a body does. It does not matter how the
-- stream is cut into chunks, as long as each comes before a timeout, the limit on a frame fits into
-- four bytes, and there is fuel for each frame.
pub bulk_frames-join :
    (fuel : ℕ) (t : Timeouts) (m : ℕ) (payloads : List Bytes) (tail carry : Bytes)
    (answers : List Answer) (e : End)
    → m < 2 ^ 32
    → length payloads < fuel
    → All (IsPayload m) payloads
    → Tail m tail e
    → AreTimely t answers
    → carry ++ content answers ≡ join_frames payloads tail
    → bulk_frames fuel t m carry answers ≡ some (map encode_frame payloads, e)
bulk_frames-join zero t m payloads tail carry answers e bound enough valid end timely same =
    absurd (omega arith)
bulk_frames-join (suc fuel) t m [] tail carry answers e bound enough valid end timely same =
    bulk_frames-ends fuel t m carry answers e
      (read_framed_chunk-Tail t m tail carry answers e bound end timely same)
bulk_frames-join (suc fuel) t m (p ∷ payloads) tail carry answers e bound enough
      ((full, fits), valid) end timely same =
    let (carry', answers', step, rest, timely') =
      bulk_frames-frame fuel t m p (join_frames payloads tail) carry answers
        (read_framed_chunk t m carry answers) full
        (read_framed_chunk-Gives t m p (join_frames payloads tail) carry answers bound fits timely
          same)
        refl in
    rw
      (
        step,
        bulk_frames-join fuel t m payloads tail carry' answers' e bound (omega arith) valid end
            timely' rest,
      )
      refl
