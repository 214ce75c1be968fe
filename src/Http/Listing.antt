-- ===== src/Http/Listing.antt =====
-- src/http/pinning-http.ts: the bodies of /health and /multiaddrs, and `prioritizeAddresses`. What
-- libp2p and the metrics server tell is an argument, and so is `a.localeCompare(b) <= 0`.
pub mod Laws
mod Tests
use orbitdb_relay.Prelude.{
  ℕ, Text, codes, includes, Bool, true, false, Option, none, some, List, [], ◌∷◌, ◌&&◌, not, filter,
  if◌then◌else◌, length,
}
use orbitdb_relay.Values.{Value, null, num, str, arr, obj, Fields, field, end, lookup, coalesce}
use orbitdb_relay.Announce.{is_public_address, filter_announce_addresses}
use orbitdb_relay.Http.Messages.{texts, text_or_null, object_or_null}

-- Whether the sort may put `a` in front of `b`.
abbrev pub may_precede : (Text → Text → Bool) → Text → Text → Bool
may_precede locale_leb a b =
    if is_public_address a
    then (if is_public_address b then locale_leb a b else true)
    else (if is_public_address b then false else locale_leb a b)

unfoldable pub put : (Text → Text → Bool) → Text → List Text → List Text
put locale_leb a [] = a ∷ []
put locale_leb a (b ∷ addrs) =
    let rest = put locale_leb a addrs in
    if may_precede locale_leb a b then a ∷ b ∷ addrs else b ∷ rest

unfoldable pub prioritize_addresses : (Text → Text → Bool) → List Text → List Text
unfolding put
prioritize_addresses locale_leb [] = []
prioritize_addresses locale_leb (a ∷ addrs) =
    put locale_leb a (prioritize_addresses locale_leb addrs)

-- `all`
unfoldable pub listed_addresses :
    (Text → Text → Bool) → (Text → Option Text) → List Text → List Text
unfolding prioritize_addresses
listed_addresses locale_leb env addrs =
    prioritize_addresses locale_leb (filter_announce_addresses env addrs)

abbrev pub is_webrtc : Text → Bool
is_webrtc addr = includes addr (codes "/webrtc")

abbrev pub is_websocket : Text → Bool
is_websocket addr = includes addr (codes "/ws")

abbrev pub is_tcp : Text → Bool
is_tcp addr = includes addr (codes "/tcp/") && not (includes addr (codes "/ws"))

-- `addrs[0] || null`; no address is empty.
abbrev pub first_or_null : List Text → Value
first_or_null [] = null
first_or_null (addr ∷ addrs) = str addr

-- What libp2p says of the node, if it is there; and the statement of the metrics server.
pub record Node : Type 0 where
  pub peer_id : Option Text
  pub connections : ℕ
  pub multiaddrs : List Text
  pub metrics_https : Option Fields
  pub timestamp : Text
  pub version : Text

abbrev pub serving_zone : Option Fields → Value
serving_zone none = null
serving_zone (some info) = coalesce (lookup (codes "autoTlsServingZone") info) null

-- `deployedMode` is a function there, which JSON leaves out.
unfoldable pub multiaddrs_body : (Text → Text → Bool) → (Text → Option Text) → Node → Fields
unfolding listed_addresses
multiaddrs_body locale_leb env node =
    let all = listed_addresses locale_leb env node.multiaddrs in
    let webrtc = filter is_webrtc all in
    let tcp = filter is_tcp all in
    let websocket = filter is_websocket all in
    field (codes "version") (str node.version) (
      field (codes "peerId") (text_or_null node.peer_id) (
        field (codes "all") (arr (texts all)) (
          field (codes "byTransport")
            (obj (
              field (codes "webrtc") (arr (texts webrtc)) (
                field (codes "tcp") (arr (texts tcp))
                  (field (codes "websocket") (arr (texts websocket)) end))))
            (field (codes "best")
              (obj (
                field (codes "webrtc") (first_or_null webrtc) (
                  field (codes "websocket") (first_or_null websocket)
                    (field (codes "tcp") (first_or_null tcp) end))))
              (field (codes "autoTlsServingZone") (serving_zone node.metrics_https) (
                field (codes "metricsHttps") (object_or_null node.metrics_https)
                  (field (codes "timestamp") (str node.timestamp) end)))))))

-- `identify` is the summary of the identify payload.
unfoldable pub health_body : Fields → Node → Fields
health_body identify node = field (codes "status") (str (codes "ok")) (
    field (codes "version") (str node.version) (
      field (codes "peerId") (text_or_null node.peer_id) (
        field (codes "connections") (obj (field (codes "active") (num node.connections) end)) (
          field (codes "multiaddrs") (num (length node.multiaddrs)) (
            field (codes "identify") (obj identify) (
              field (codes "autoTlsServingZone") (serving_zone node.metrics_https) (
                field (codes "metricsHttps") (object_or_null node.metrics_https)
                  (field (codes "timestamp") (str node.timestamp) end))))))))
