-- ===== src/Attest/Tests.antt =====
-- The bridge of src/services/attest-bridge-service.ts on concrete streams.
use orbitdb_relay.Prelude.{
  ℕ, zero, suc, Text, Bytes, codes, text_eq, starts_with, true, false, Option, none, some, List, [],
  ◌∷◌, ◌++◌, ◌≡◌, refl, arith,
}
use orbitdb_relay.Prelude.TextSet
use orbitdb_relay.Values.{lookup, Value, str, obj, end, field}
use orbitdb_relay.Attest.{
  Answer, cut_line, chunk, refused, read_header, is_hash, bridges, parse_attest_header, take_up,
  client_address_for, ip_of, until_slash, is_loopback, peer_address, before_stop, attest_protocol,
}
use orbitdb_relay.Attest.Laws.{content, Forwards, take_up-Forwards}

abbrev at_once : Bytes → Answer
at_once bytes = record { asked_at = 0; wait = 1; item = chunk bytes }

abbrev a_hash : ℕ → Text
a_hash zero = []
a_hash (suc n) = 97 ∷ a_hash n

abbrev parse_json : Text → Option Value
parse_json line =
    some (obj (field (codes "crn") (str (a_hash 64)) (field (codes "vm") (str (a_hash 64)) end)))

abbrev print : Value → Text
print (str s) = s
print _ = []

-- The line feed is the third byte of the second chunk; the third chunk comes after a minute.
abbrev early : List Answer
early = at_once (123 ∷ []) ∷ at_once (125 ∷ 32 ∷ 10 ∷ 7 ∷ []) ∷ []

abbrev after_a_minute : List Answer
after_a_minute = record { asked_at = 60_000; wait = 1; item = chunk (8 ∷ []) } ∷ []

abbrev answers : List Answer
answers = at_once (123 ∷ []) ∷ at_once (125 ∷ 32 ∷ 10 ∷ 7 ∷ []) ∷ at_once (8 ∷ []) ∷ []

take_up-Forwards_example :
    Forwards
      (parse_attest_header parse_json print (123 ∷ 125 ∷ 32 ∷ []))
      (codes "9.9.9.9")
      (7 ∷ content after_a_minute)
      (take_up (λ bytes. bytes) parse_json print (codes "9.9.9.9") (early ++ after_a_minute))
take_up-Forwards_example =
    take_up-Forwards (λ bytes. bytes) parse_json print (codes "9.9.9.9") early after_a_minute
      (123 ∷ 125 ∷ 32 ∷ []) (7 ∷ []) refl refl refl (omega arith) refl

-- The target of the parsed header, which the bridge goes to.
bridged :
    take_up (λ bytes. bytes) parse_json print (codes "9.9.9.9") answers
    ≡ bridges
        (record { crn = a_hash 64; vm = a_hash 64 })
        (codes "9.9.9.9")
        (7 ∷ [])
        (at_once (8 ∷ []) ∷ [])
unfolding take_up read_header cut_line parse_attest_header is_hash lookup text_eq
bridged = refl

late :
    read_header [] (record { asked_at = 9_999; wait = 1; item = chunk (10 ∷ []) } ∷ [])
    ≡ refused (codes "no header in time")
unfolding read_header
late = refl

unterminated :
    read_header [] (at_once (1 ∷ []) ∷ []) ≡ refused (codes "stream ended before the header")
unfolding read_header cut_line
unterminated = refl

abbrev digest : Text → Text
digest s = codes "0123456789abcdef"

public_ip :
    client_address_for (λ ip. true) digest (some (codes "/ip4/9.9.9.9/tcp/1")) none
    ≡ codes "9.9.9.9"
unfolding client_address_for ip_of until_slash is_loopback text_eq starts_with
public_ip = refl

loopback :
    client_address_for (λ ip. true) digest (some (codes "/ip6/::1/tcp/1")) none
    ≡ codes "fd00:0123:4567:89ab::1"
unfolding client_address_for ip_of until_slash is_loopback peer_address text_eq starts_with
loopback = refl

start_stop :
    before_stop (record { started = true; handled = attest_protocol ∷ [] })
    ≡ record { started = false; handled = [] }
unfolding before_stop TextSet.delete text_eq
start_stop = refl
