-- ===== src/Connectivity.antt =====
-- src/services/connectivity-debug-protocols-service.ts: the echo protocol, the settings of the bulk
-- protocol, and the service that registers both. What the stream decoder gives for a chunk is an
-- argument (one decoder serves all streams), `none` when reading the stream throws; so is whether
-- the registrar takes a handler. Settings that are no finite numbers are `none`.
pub mod Reader
pub mod Chunks
pub mod Frames
pub mod Fuel
pub mod Echo
mod Tests
use orbitdb_relay.Prelude.{
  ℕ, ◌+◌, ◌*◌, max, Text, Bytes, codes, Bool, true, false, Option, none, some, List, [], ◌∷◌, ◌++◌,
  if◌then◌else◌, ◌==◌, get_or, not, ◌||◌, ◌&&◌,
}
use orbitdb_relay.Prelude.TextSet
use orbitdb_relay.Prelude.TextSet.{TextSet}
use orbitdb_relay.Exposure.{trim}
use orbitdb_relay.Connectivity.Reader.{Answer, Timeouts, End, bulk_frames}

abbrev pub connectivity_echo_protocol : Text
connectivity_echo_protocol = codes "/connectivity-echo/1.0.0"

abbrev pub connectivity_bulk_protocol : Text
connectivity_bulk_protocol = codes "/connectivity-bulk/1.0.0"

-- `s.slice(0, s.indexOf('\n'))`, where there is a line feed.
unfoldable pub first_line : Text → Option Text
first_line [] = none
first_line (c ∷ s) =
    if c == 10 then some [] else elim (first_line s) [ none ↦ none | some line ↦ some (c ∷ line) ]

unfoldable pub read_line : Text → List (Option Text) → Option Text
unfolding first_line
read_line buf [] = some (trim buf)
read_line buf (none ∷ pieces) = none
read_line buf (some piece ∷ pieces) = elim (first_line (buf ++ piece)) [
  | none ↦ read_line (buf ++ piece) pieces
  | some line ↦ some (trim line)
]

abbrev pub echo_reply : Text → Text
echo_reply [] = codes "echo:(empty)\n"
echo_reply (c ∷ line) = codes "echo:" ++ (c ∷ line) ++ codes "\n"

-- What the echo handler writes before it closes the stream.
unfoldable pub echo : List (Option Text) → Option Text
unfolding read_line
echo pieces = elim (read_line [] pieces) [ none ↦ none | some line ↦ some (echo_reply line) ]

abbrev pub at_least_one : Option ℕ → ℕ → ℕ
at_least_one none standard = standard
at_least_one (some n) standard = max 1 n

pub record BulkInit : Type 0 where
  pub enabled : Bool
  pub max_frame_bytes : Option ℕ
  pub read_timeout_ms : Option ℕ
  pub idle_timeout_ms : Option ℕ

pub record Init : Type 0 where
  pub echo_enabled : Bool
  pub bulk : BulkInit

abbrev pub bulk_timeouts : BulkInit → Timeouts
bulk_timeouts init = record {
  read_timeout_ms = at_least_one init.read_timeout_ms 10_000;
  idle_timeout_ms = at_least_one init.idle_timeout_ms 30_000;
}

unfoldable pub bulk : BulkInit → ℕ → List Answer → Option (List Bytes × End)
unfolding bulk_frames
bulk init fuel answers =
    bulk_frames fuel (bulk_timeouts init) (at_least_one init.max_frame_bytes (256 * 1024)) []
      answers

-- The service, with the protocols that the registrar has a handler for.
pub record Connectivity : Type 0 where
  pub started : Bool
  pub handled : TextSet

-- `none` is a call that throws.
abbrev pub handle : (Text → Bool) → Bool → Text → Connectivity → Option Connectivity
handle accepts false protocol s = some s
handle accepts true protocol s =
    if accepts protocol then some (record s { handled = TextSet.add protocol s.handled }) else none

-- The first component says whether the start went through.
abbrev pub end_start : Connectivity → Option Connectivity → Bool × Connectivity
end_start s none = (false, s)
end_start s (some t) = (true, record t { started = true })

abbrev pub start_bulk :
    (Text → Bool) → Init → Connectivity → Option Connectivity → Bool × Connectivity
start_bulk accepts init s none = (false, s)
start_bulk accepts init s (some t) =
    end_start t (handle accepts init.bulk.enabled connectivity_bulk_protocol t)

unfoldable pub after_start : (Text → Bool) → Init → Connectivity → Bool × Connectivity
after_start accepts init s =
    if s.started
    then (true, s)
    else start_bulk accepts init s (handle accepts init.echo_enabled connectivity_echo_protocol s)

abbrev pub unhandle : Bool → Text → TextSet → TextSet
unhandle false protocol handled = handled
unhandle true protocol handled = TextSet.delete protocol handled

unfoldable pub before_stop : Init → Connectivity → Connectivity
before_stop init s = if not s.started then s else record s {
  started = false;
  handled =
      unhandle init.bulk.enabled connectivity_bulk_protocol
        (unhandle init.echo_enabled connectivity_echo_protocol s.handled);
}
