-- ===== src/Attest.antt =====
-- src/services/attest-bridge-service.ts: the header line of a stream, the target that it names, the
-- address that a client is counted by, and the end of a bridge. Chunks come from the iterator of
-- the stream with the time at which each was asked for and the time that it took. The parser of
-- JSON, the UTF-8 decoder, the test for an IP address and the digest of a peer id are arguments.
pub mod Laws
mod Tests
use orbitdb_relay.Prelude.{
  ℕ, zero, suc, ◌+◌, ◌-◌, Text, Bytes, codes, text_eq, starts_with, slice_from, Bool, true, false,
  Option, none, some, List, [], ◌∷◌, ◌++◌, ◌&&◌, ◌||◌, not, if◌then◌else◌, ltb, leb, ◌==◌, length,
  take, drop, all, get_or,
}
use orbitdb_relay.Prelude.TextSet
use orbitdb_relay.Prelude.TextSet.{TextSet}
use orbitdb_relay.Values.{Value, member}

abbrev pub max_header_bytes : ℕ
max_header_bytes = 512

abbrev pub header_timeout_ms : ℕ
header_timeout_ms = 10_000

pub data Item : Type 0 where
  chunk : Bytes → Item
  done : Item
  throws : Text → Item

-- An answer of the iterator: when it was asked for, since the start, and how long it took.
pub record Answer : Type 0 where
  pub asked_at : ℕ
  pub wait : ℕ
  pub item : Item

pub data Header : Type 0 where
  header : Bytes → Bytes → List Answer → Header
  refused : Text → Header

-- The bytes before the first line feed and those behind it.
unfoldable pub cut_line : Bytes → Option (Bytes × Bytes)
cut_line [] = none
cut_line (c ∷ s) =
    if c == 10
    then some ([], s)
    else elim (cut_line s) [ none ↦ none | some (line, rest) ↦ some (c ∷ line, rest) ]

unfoldable pub read_header : Bytes → List Answer → Header
unfolding cut_line
read_header buffered [] = refused (codes "stream ended before the header")
read_header buffered (a ∷ answers) =
    if not (ltb (a.asked_at + a.wait) header_timeout_ms)
    then refused (codes "no header in time")
    else elim a.item [
      | done ↦ refused (codes "stream ended before the header")
      | throws message ↦ refused message
      | chunk bytes ↦ elim (cut_line (buffered ++ bytes)) [
        | some (line, rest) ↦ header line rest answers
        | none ↦
            if ltb max_header_bytes (length (buffered ++ bytes))
            then refused (codes "header too long")
            else read_header (buffered ++ bytes) answers
      ]
    ]

abbrev pub is_hex : ℕ → Bool
is_hex c = (leb 48 c && leb c 57) || (leb 97 c && leb c 102)

-- `/^[0-9a-f]{64}$/u`
unfoldable pub is_hash : Text → Bool
is_hash s = length s == 64 && all is_hex s

-- A node and an instance.
pub record Target : Type 0 where
  pub crn : Text
  pub vm : Text

-- `print` is `String(v ?? '')`.
abbrev pub target_of : (Value → Text) → Option Value → Option Target
target_of print none = none
target_of print (some value) =
    let crn = print (member (codes "crn") value) in
    let vm = print (member (codes "vm") value) in
    if is_hash crn && is_hash vm then some (record { crn = crn; vm = vm }) else none

unfoldable pub parse_attest_header : (Text → Option Value) → (Value → Text) → Text → Option Target
unfolding is_hash
parse_attest_header parse_json print line = target_of print (parse_json line)

-- `/^\/ip[46]\/([^/]+)/u.exec(s)?.[1]`
unfoldable pub until_slash : Text → Text
until_slash [] = []
until_slash (c ∷ s) = let rest = until_slash s in if c == 47 then [] else c ∷ rest

abbrev pub some_text : Text → Option Text
some_text [] = none
some_text (c ∷ s) = some (c ∷ s)

unfoldable pub ip_of : Text → Option Text
unfolding until_slash
ip_of addr =
    if starts_with addr (codes "/ip4/") || starts_with addr (codes "/ip6/")
    then some_text (until_slash (slice_from addr 5))
    else none

-- `/^(127\.|::1$|::ffff:127\.)/u`
unfoldable pub is_loopback : Text → Bool
is_loopback ip =
    starts_with ip (codes "127.")
    || text_eq ip (codes "::1")
    || starts_with ip (codes "::ffff:127.")

-- `digest` is the hexadecimal print of the SHA-256 of a text.
unfoldable pub peer_address : (Text → Text) → Option Text → Text
peer_address digest remote_peer =
    let d = digest (get_or remote_peer (codes "unknown")) in
    codes "fd00:"
    ++ (take 4 d
        ++ (codes ":" ++ (take 4 (drop 4 d) ++ (codes ":" ++ (take 4 (drop 8 d) ++ codes "::1")))))

unfoldable pub client_address_for : (Text → Bool) → (Text → Text) → Option Text → Option Text → Text
unfolding ip_of is_loopback peer_address
client_address_for is_ip digest remote_addr remote_peer = elim (ip_of (get_or remote_addr [])) [
  | none ↦ peer_address digest remote_peer
  | some ip ↦ if is_ip ip && not (is_loopback ip) then ip else peer_address digest remote_peer
]

-- How a stream is taken up: it is closed with a reason, or bridged for a client to a target.
pub data Taken : Type 0 where
  closes : Text → Taken
  bridges : Target → Text → Bytes → List Answer → Taken

abbrev pub bridge_to : Text → Bytes → List Answer → Option Target → Taken
bridge_to client rest answers none = closes (codes "bad header")
bridge_to client rest answers (some target) = bridges target client rest answers

abbrev pub take_header :
    (Bytes → Text) → (Text → Option Value) → (Value → Text) → Text → Header → Taken
take_header decode parse_json print client (refused why) = closes why
take_header decode parse_json print client (header line rest answers) =
    bridge_to client rest answers (parse_attest_header parse_json print (decode line))

unfoldable pub take_up :
    (Bytes → Text) → (Text → Option Value) → (Value → Text) → Text → List Answer → Taken
unfolding read_header
take_up decode parse_json print client answers =
    take_header decode parse_json print client (read_header [] answers)

-- What is sent to the guest before the bridge ends: what came behind the header, if anything did,
-- and then each chunk, until the stream ends or throws, or the other side has ended it. `ended i`
-- is whether it has when the i-th chunk comes.
unfoldable pub sent_on : (ℕ → Bool) → ℕ → List Answer → List Bytes
sent_on ended i [] = []
sent_on ended i (a ∷ answers) = elim a.item [
  | done ↦ []
  | throws message ↦ []
  | chunk bytes ↦ let rest = sent_on ended (suc i) answers in if ended i then [] else bytes ∷ rest
]

unfoldable pub sent_to_guest : (ℕ → Bool) → Bytes → List Answer → List Bytes
unfolding sent_on
sent_to_guest ended [] answers = sent_on ended 0 answers
sent_to_guest ended (b ∷ rest) answers = (b ∷ rest) ∷ sent_on ended 0 answers

abbrev pub attest_protocol : Text
attest_protocol = codes "/le-space/attest/1.0.0"

-- The service, with the protocols that the registrar has a handler for.
pub record AttestBridge : Type 0 where
  pub started : Bool
  pub handled : TextSet

-- The first argument is whether the registrar takes the handler; so is the first component of the
-- result for the start.
unfoldable pub after_start : Bool → AttestBridge → Bool × AttestBridge
after_start accepts s =
    if s.started
    then (true, s)
    else if accepts
    then (true, record { started = true; handled = TextSet.add attest_protocol s.handled })
    else (false, s)

unfoldable pub before_stop : AttestBridge → AttestBridge
before_stop s =
    if not s.started
    then s
    else record { started = false; handled = TextSet.delete attest_protocol s.handled }
