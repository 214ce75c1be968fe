-- ===== src/Metrics.antt =====
-- src/services/metrics.ts: the settings of the metrics server and its address under AutoTLS, the
-- routes that it adds to those of the HTTP API, and the start and the stop of its two listeners.
-- The environment is an argument, and so is `Number` where it gives a natural number; other numbers
-- are left out. A port that is bound is what tells a server apart.
pub mod Servers
pub mod Laws
mod Tests
use orbitdb_relay.Prelude.{
  ℕ, Text, codes, text_eq, Bool, true, false, Option, none, some, List, [], ◌∷◌, ◌++◌, ◌&&◌, ◌||◌,
  not, map, filter, if◌then◌else◌, ltb, ◌==◌, is_some, get_or,
}
use orbitdb_relay.Values.{Value, null, bool, num, str, Fields, field, end}
use orbitdb_relay.Media.{decimal}
use orbitdb_relay.Peers.{is_empty}
use orbitdb_relay.Exposure.{trim}
use orbitdb_relay.Identify.{Summary}
use orbitdb_relay.EventHandlers.{is_switched_on}
use orbitdb_relay.Http.{Origins, any_origin, listed, before_query}
use orbitdb_relay.Http.Messages.{number_or_null, text_or_null}

-- `env[name]?.trim()`, where it is not empty.
abbrev pub not_blank : Text → Option Text
not_blank [] = none
not_blank (c ∷ s) = some (c ∷ s)

abbrev pub setting : Option Text → Option Text
setting none = none
setting (some raw) = not_blank (trim raw)

unfoldable pub read_metrics_https_port : (Text → Option ℕ) → Option Text → ℕ
read_metrics_https_port number raw = elim (setting raw) [
  | none ↦ 9443
  | some text ↦ get_or (number text) 9443
]

abbrev pub in_range : Option ℕ → Option ℕ
in_range none = none
in_range (some value) = if ltb value 1 || ltb 65535 value then none else some value

unfoldable pub read_optional_port_env_var : (Text → Option ℕ) → Option Text → Option ℕ
read_optional_port_env_var number raw = elim (setting raw) [
  | none ↦ none
  | some text ↦ in_range (number text)
]

-- `s.replace(/c/g, '-')`
abbrev pub dashed : ℕ → Text → Text
dashed c s = map (λ d. if d == c then 45 else d) s

abbrev pub lead : Text → Text
lead [] = []
lead (c ∷ s) = if c == 45 then 48 ∷ c ∷ s else c ∷ s

-- `0` behind a text that ends with a dash.
unfoldable pub trail : Text → Text
trail [] = []
trail (c ∷ []) = if c == 45 then c ∷ 48 ∷ [] else c ∷ []
trail (c ∷ d ∷ s) = c ∷ trail (d ∷ s)

unfoldable pub ipv6_label : Text → Text
unfolding trail
ipv6_label ipv6 = trail (lead (dashed 58 ipv6))

abbrev pub ipv6_auto_tls_host : Text → Text → Text
ipv6_auto_tls_host ipv6 zone = ipv6_label ipv6 ++ codes "." ++ zone

unfoldable pub metrics_https_host : (Text → Option Text) → Option Text → Option Text
unfolding ipv6_label
metrics_https_host env zone = elim (setting (env (codes "METRICS_HTTPS_PUBLIC_HOST"))) [
  | some host ↦ some host
  | none ↦ elim zone [
    | none ↦ none
    | some z ↦ elim (setting (env (codes "PUBLIC_IPV4"))) [
      | some ipv4 ↦ some (dashed 46 ipv4 ++ codes "." ++ z)
      | none ↦ elim (setting (env (codes "PUBLIC_IPV6"))) [
        | some ipv6 ↦ some (ipv6_auto_tls_host ipv6 z)
        | none ↦ some (codes "metrics." ++ z)
      ]
    ]
  ]
]

abbrev pub health_url : Option Text → Option ℕ → Option Text
health_url (some host) (some port) =
    some (codes "https://" ++ host ++ codes ":" ++ decimal port ++ codes "/health")
health_url _ _ = none

-- `tls_port` is the port of the TLS listener, where it listens.
unfoldable pub metrics_https_payload :
    (Text → Option ℕ) → (Text → Option Text) → Option ℕ → Option Text → Fields
unfolding metrics_https_host read_metrics_https_port read_optional_port_env_var
metrics_https_payload number env tls_port zone =
    let enabled = is_switched_on (env (codes "METRICS_HTTPS_ENABLED")) in
    let configured = read_metrics_https_port number (env (codes "METRICS_HTTPS_PORT")) in
    let internal = if enabled then some (get_or tls_port configured) else none in
    let external =
      if enabled
      then (elim (read_optional_port_env_var number (env (codes "EXTERNAL_METRICS_HTTPS_PORT"))) [
        | some port ↦ some port
        | none ↦ internal
      ])
      else none in
    let host = if enabled then metrics_https_host env zone else none in
    field (codes "enabled") (bool enabled) (
      field (codes "listening") (bool (is_some tls_port)) (
        field (codes "port") (number_or_null internal) (
          field (codes "internalPort") (number_or_null internal) (
            field (codes "externalPort") (number_or_null external) (
              field (codes "host") (text_or_null host) (
                field (codes "exampleUrl") (text_or_null (health_url host external)) (
                  field (codes "internalExampleUrl") (text_or_null (health_url host internal))
                    end)))))))

unfoldable pub split_commas : Text → List Text
split_commas [] = [] ∷ []
split_commas (c ∷ s) = elim (split_commas s) [
  | [] ↦ (c ∷ []) ∷ []
  | part ∷ parts ↦ if c == 44 then [] ∷ part ∷ parts else (c ∷ part) ∷ parts
]

abbrev pub listed_or_any : List Text → Origins
listed_or_any [] = any_origin
listed_or_any (origin ∷ origins) = listed (origin ∷ origins)

-- `METRICS_CORS_ORIGIN`
unfoldable pub read_cors_origin_config : Option Text → Origins
unfolding split_commas
read_cors_origin_config raw = elim (setting raw) [
  | none ↦ any_origin
  | some text ↦
      if text_eq text (codes "*")
      then any_origin
      else listed_or_any (filter (λ o. not (is_empty o)) (map trim (split_commas text)))
]

-- A gauge: what the provider tells, where there is one and it does not throw.
unfoldable pub identify_gauge_value : (Summary → ℕ) → Option Summary → ℕ
identify_gauge_value pick none = 0
identify_gauge_value pick (some summary) = pick summary
