-- ===== src/Metrics/Tests.antt =====
-- The settings and the listeners of the metrics server on concrete values.
use orbitdb_relay.Prelude.{
  not, Bool, List, Text, codes, text_eq, true, false, Option, none, some, [], ◌∷◌, if◌then◌else◌,
  ◌≡◌, refl,
}
use orbitdb_relay.Exposure.{trim_start, trim_end}
use orbitdb_relay.EventHandlers.{is_switched_on}
use orbitdb_relay.Http.{listed}
use orbitdb_relay.Metrics.{ipv6_label, trail, read_cors_origin_config, split_commas}
use orbitdb_relay.Metrics.Servers.{
  Pem, new_servers, bound, in_use, cannot, is_disabled, start, stop, listen,
}
use orbitdb_relay.Metrics.Laws.{Application, apply_all, served, certificate, certificate-apply_all}

loopback_label : ipv6_label (codes "::1") ≡ codes "0--1"
unfolding ipv6_label trail
loopback_label = refl

abbrev env : Text → Option Text
env name = if text_eq name (codes "METRICS_HTTPS_ENABLED") then some (codes "true") else none

enabled : is_switched_on (env (codes "METRICS_HTTPS_ENABLED")) ≡ true
unfolding text_eq trim_start trim_end
enabled = refl

not_disabled : is_disabled (env (codes "METRICS_DISABLED")) ≡ false
unfolding is_disabled text_eq
not_disabled = refl

abbrev pem : Text → Pem
pem cert = record { key = codes "k"; cert = cert }

-- A certificate is valid if its text is not `x`.
abbrev is_valid : Pem → Bool
is_valid tls = not (text_eq tls.cert (codes "x"))

-- The port is in use, and then a free one is found.
abbrev first_listen : Application
first_listen = record { first = in_use; again = bound 40_000; tls = pem (codes "a") }

abbrev applies : Text → Application
applies cert = record { first = bound 9443; again = cannot; tls = pem cert }

-- A renewal, and one that is not valid.
abbrev renewals : List Application
renewals = first_listen ∷ applies (codes "b") ∷ applies (codes "x") ∷ []

certificate-apply_all_example :
    certificate (apply_all env is_valid 9443 renewals new_servers).tls_server
    ≡ served is_valid 9443 renewals
certificate-apply_all_example =
    certificate-apply_all env is_valid 9443 enabled not_disabled renewals

keeps_valid : served is_valid 9443 renewals ≡ some (pem (codes "b"))
unfolding text_eq
keeps_valid = refl

-- After a first certificate that is not valid, no other is ever served.
never_served : served is_valid 9443 (applies (codes "x") ∷ applies (codes "b") ∷ []) ≡ none
unfolding text_eq
never_served = refl

origins :
    read_cors_origin_config (some (codes " https://a, ,https://b "))
    ≡ listed (codes "https://a" ∷ codes "https://b" ∷ [])
unfolding read_cors_origin_config split_commas trim_start trim_end text_eq
origins = refl

starts_on_any_port : (start env 9090 in_use (bound 40_000) new_servers).0 ≡ some 40_000
unfolding start listen is_disabled text_eq
starts_on_any_port = refl

stops : stop (start env 9090 (bound 9090) cannot new_servers).1 ≡ (true, new_servers)
unfolding stop start text_eq
stops = refl
