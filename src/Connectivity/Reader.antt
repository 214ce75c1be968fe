-- ===== src/Connectivity/Reader.antt =====
-- src/services/connectivity-debug-protocols-service.ts, `ByteStreamReader` and the frames of the
-- bulk protocol. The iterator of a stream is the list of its answers, each with the time since the
-- last activity when it was asked for and the time that it took; a list that is at its end answers
-- that the stream has ended. Bytes are numbers.
use orbitdb_relay.Prelude.{
  ℕ, zero, suc, ◌+◌, ◌-◌, ◌*◌, ◌/◌, ◌%◌, ◌^◌, min, max, Text, Bytes, Option, none, some, List, [],
  ◌∷◌, ◌++◌, if◌then◌else◌, ltb, leb, ◌==◌, length, take, drop,
}

pub data Item : Type 0 where
  chunk : Bytes → Item
  done : Item
  throws : Text → Item

pub record Answer : Type 0 where
  pub idle : ℕ
  pub wait : ℕ
  pub item : Item

pub record Timeouts : Type 0 where
  pub read_timeout_ms : ℕ
  pub idle_timeout_ms : ℕ

pub data Failure : Type 0 where
  stream_ended idle_timeout read_timeout : Failure
  thrown : Text → Failure
  frame_too_long : ℕ → Failure

-- What a read gives: the bytes, what is carried over, and the stream behind them.
pub data Read : Type 0 where
  fails : Failure → Read
  reads : Bytes → Bytes → List Answer → Read

abbrev pub timeout_ms : Timeouts → ℕ → ℕ
timeout_ms t idle = max (min t.read_timeout_ms (max (t.idle_timeout_ms - idle) 1)) 1

abbrev pub timeout_failure : Timeouts → ℕ → Failure
timeout_failure t idle = if leb t.idle_timeout_ms idle then idle_timeout else read_timeout

pub data Next : Type 0 where
  carries : Bytes → Next
  stops : Failure → Next

abbrev pub item_next : Item → Next
item_next (chunk bytes) = carries bytes
item_next done = stops stream_ended
item_next (throws message) = stops (thrown message)

unfoldable pub next_chunk : Timeouts → Answer → Next
next_chunk t a =
    if ltb a.wait (timeout_ms t a.idle) then item_next a.item else stops (timeout_failure t a.idle)

-- The loop with `n` bytes to go behind those of `out`: it takes what is carried over, and then asks
-- for a chunk if that was not enough.
unfoldable pub read_on : Timeouts → ℕ → Bytes → Bytes → List Answer → Read
unfolding next_chunk
read_on t n out carry [] =
    if leb n (length carry)
    then reads (out ++ take n carry) (drop n carry) []
    else fails stream_ended
read_on t n out carry (a ∷ answers) =
    if leb n (length carry)
    then reads (out ++ take n carry) (drop n carry) (a ∷ answers)
    else elim (next_chunk t a) [
      | stops failure ↦ fails failure
      | carries bytes ↦ read_on t (n - length carry) (out ++ carry) bytes answers
    ]

unfoldable pub read_exactly : Timeouts → ℕ → Bytes → List Answer → Read
unfolding read_on
read_exactly t n carry answers = read_on t n [] carry answers

unfoldable pub encode_u32be : ℕ → Bytes
encode_u32be n = (n / 2 ^ 24 % 256) ∷ (n / 2 ^ 16 % 256) ∷ (n / 2 ^ 8 % 256) ∷ (n % 256) ∷ []

unfoldable pub decode_u32be : Bytes → ℕ
decode_u32be (a ∷ b ∷ c ∷ d ∷ rest) = ((a * 256 + b) * 256 + c) * 256 + d
decode_u32be _ = 0

unfoldable pub encode_frame : Bytes → Bytes
unfolding encode_u32be
encode_frame payload = encode_u32be (length payload) ++ payload

unfoldable pub frame_body : Timeouts → ℕ → ℕ → Bytes → List Answer → Read
unfolding read_exactly
frame_body t max_frame_bytes len carry answers =
    if ltb max_frame_bytes len
    then fails (frame_too_long len)
    else if len == 0
    then reads [] carry answers
    else read_exactly t len carry answers

unfoldable pub read_framed_chunk : Timeouts → ℕ → Bytes → List Answer → Read
unfolding frame_body decode_u32be
read_framed_chunk t max_frame_bytes carry answers = elim (read_exactly t 4 carry answers) [
  | fails failure ↦ fails failure
  | reads header carry' answers' ↦
      frame_body t max_frame_bytes (decode_u32be header) carry' answers'
]

-- How the loop of the bulk handler ends.
pub data End : Type 0 where
  returned : End
  failed : Failure → End

abbrev pub yield_frame : Bytes → Option (List Bytes × End) → Option (List Bytes × End)
yield_frame payload none = none
yield_frame payload (some (frames, end)) = some (encode_frame payload ∷ frames, end)

-- The frames that the bulk handler yields; `none` when the fuel, one step for each frame, runs out.
unfoldable pub bulk_frames : ℕ → Timeouts → ℕ → Bytes → List Answer → Option (List Bytes × End)
unfolding read_framed_chunk encode_frame
bulk_frames zero t max_frame_bytes carry answers = none
bulk_frames (suc fuel) t max_frame_bytes carry answers =
    elim (read_framed_chunk t max_frame_bytes carry answers) [
      | fails failure ↦ some ([], failed failure)
      | reads payload carry' answers' ↦ elim payload [
        | [] ↦ some ([], returned)
        | b ∷ bytes ↦ yield_frame (b ∷ bytes) (bulk_frames fuel t max_frame_bytes carry' answers')
      ]
    ]
