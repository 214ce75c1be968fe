-- ===== src/Connectivity/Tests.antt =====
-- The protocols of src/services/connectivity-debug-protocols-service.ts on concrete streams.
use orbitdb_relay.Prelude.{
  Text, Bytes, codes, text_eq, true, false, none, some, List, [], ◌∷◌, map, ◌≡◌, refl, arith,
  is_some,
}
use orbitdb_relay.Exposure.{trim_start, trim_end}
use orbitdb_relay.Connectivity.Reader.{
  Answer, Timeouts, chunk, encode_frame, bulk_frames, failed, stream_ended,
}
use orbitdb_relay.Connectivity.Frames.{cut_header, bulk_frames-join}
use orbitdb_relay.Connectivity.Fuel.{bulk_frames-ends_always}
use orbitdb_relay.Connectivity.{first_line, echo, Init, Connectivity}

abbrev timeouts : Timeouts
timeouts = record { read_timeout_ms = 10; idle_timeout_ms = 30 }

abbrev at_once : Bytes → Answer
at_once bytes = record { idle = 0; wait = 1; item = chunk bytes }

-- A frame of two bytes that is cut inside its header, and the beginning of another header.
abbrev answers : List Answer
answers = at_once (0 ∷ 0 ∷ []) ∷ at_once (0 ∷ 2 ∷ 7 ∷ []) ∷ at_once (8 ∷ 0 ∷ []) ∷ []

bulk_frames-join_example :
    bulk_frames 5 timeouts 8 [] answers
    ≡ some (map encode_frame ((7 ∷ 8 ∷ []) ∷ []), failed stream_ended)
unfolding encode_frame
bulk_frames-join_example =
    bulk_frames-join 5 timeouts 8 ((7 ∷ 8 ∷ []) ∷ []) (0 ∷ []) [] answers (failed stream_ended)
      (omega arith) (omega arith) (omega arith) (cut_header (0 ∷ []) (omega arith)) refl refl

bulk_frames-ends_always_example : is_some (bulk_frames 9 timeouts 8 [] answers) ≡ true
bulk_frames-ends_always_example = bulk_frames-ends_always 9 timeouts 8 [] answers (omega arith)

abbrev pieces : List Text
pieces = codes "he" ∷ codes "llo \nmore" ∷ []

echo_hello : echo (map (λ s. some s) pieces) ≡ some (codes "echo:hello\n")
unfolding echo first_line trim_start trim_end text_eq
echo_hello = refl

abbrev init : Init
init = record {
  echo_enabled = true;
  bulk = record {
    enabled = false;
    max_frame_bytes = none;
    read_timeout_ms = none;
    idle_timeout_ms = none;
  };
}

abbrev stopped : Connectivity
stopped = record { started = false; handled = codes "/ping" ∷ [] }
