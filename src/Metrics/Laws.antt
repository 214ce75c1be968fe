-- ===== src/Metrics/Laws.antt =====
-- Theorems about the addresses, the settings and the listeners of src/services/metrics.ts.
use orbitdb_relay.Prelude.{
  ℕ, Text, codes, Bool, true, false, Option, none, some, List, [], ◌∷◌, ◌||◌, any, if◌then◌else◌,
  ◌==◌, ◌&&◌, not, ltb, is_some, ◌≡◌, refl, ap, ◌∙◌, arith,
}
use orbitdb_relay.Metrics.{dashed, lead, trail, ipv6_label}
use orbitdb_relay.EventHandlers.{is_switched_on}
use orbitdb_relay.Metrics.Servers.{
  Listening, bound, in_use, cannot, Pem, Servers, new_servers, listen, start_tls, renew,
  is_disabled, apply_auto_tls_pem,
}

abbrev pub starts_dashed : Text → Bool
starts_dashed [] = false
starts_dashed (c ∷ s) = c == 45

abbrev pub ends_dashed : Text → Bool
ends_dashed [] = false
ends_dashed (c ∷ []) = c == 45
ends_dashed (c ∷ d ∷ s) = ends_dashed (d ∷ s)

trail-ends : (s : Text) → ends_dashed (trail s) ≡ false
unfolding trail
trail-ends [] = refl
trail-ends (c ∷ []) = ground arith
trail-ends (c ∷ d ∷ []) = ground (arith, trail-ends (d ∷ []))
trail-ends (c ∷ d ∷ e ∷ s) = trail-ends (d ∷ e ∷ s)

starts-trail : (s : Text) → starts_dashed s ≡ false → starts_dashed (trail s) ≡ false
unfolding trail
starts-trail [] h = refl
starts-trail (c ∷ []) h = ground arith
starts-trail (c ∷ d ∷ s) h = h

lead-starts : (s : Text) → starts_dashed (lead s) ≡ false
lead-starts [] = refl
lead-starts (c ∷ s) = ground arith

-- Whether the code unit stands in the text.
abbrev pub occurs : ℕ → Text → Bool
occurs c s = any (λ d. d == c) s

occurs-dashed : (s : Text) → occurs 58 (dashed 58 s) ≡ false
occurs-dashed [] = refl
occurs-dashed (c ∷ s) = ground (arith, occurs-dashed s)

occurs-lead : (s : Text) → occurs 58 s ≡ false → occurs 58 (lead s) ≡ false
occurs-lead [] h = refl
occurs-lead (c ∷ s) h = ground arith

occurs-trail : (s : Text) → occurs 58 s ≡ false → occurs 58 (trail s) ≡ false
unfolding trail
occurs-trail [] h = refl
occurs-trail (c ∷ []) h = ground arith
occurs-trail (c ∷ d ∷ s) h = ground (arith, occurs-trail (d ∷ s))

-- No colon in it, and no dash at either end.
abbrev pub IsLabel : Text → Type 0
IsLabel s = (occurs 58 s ≡ false) × (starts_dashed s ≡ false) × (ends_dashed s ≡ false)

-- The label that stands for an IPv6 address has no colon, and begins and ends with no dash, as the
-- label of a host name must.
ipv6_label-IsLabel : (ipv6 : Text) → IsLabel (ipv6_label ipv6)
unfolding ipv6_label
ipv6_label-IsLabel ipv6 = (
  occurs-trail (lead (dashed 58 ipv6)) (occurs-lead (dashed 58 ipv6) (occurs-dashed ipv6)),
  starts-trail (lead (dashed 58 ipv6)) (lead-starts (dashed 58 ipv6)),
  trail-ends (lead (dashed 58 ipv6)),
)

-- An application of a certificate: what its attempts to listen end in, and the certificate.
pub record Application : Type 0 where
  pub first : Listening
  pub again : Listening
  pub tls : Pem

module _ (env : Text → Option Text) (is_valid : Pem → Bool) (desired_port : ℕ) where
  unfoldable pub apply_all : List Application → Servers → Servers
  unfolding apply_auto_tls_pem
  apply_all [] s = s
  apply_all (a ∷ applications) s =
      apply_all applications (apply_auto_tls_pem env is_valid desired_port a.first a.again a.tls s)

-- The last valid certificate of the applications; `tls` where there is none.
abbrev pub last_valid : (Pem → Bool) → Pem → List Application → Pem
last_valid is_valid tls [] = tls
last_valid is_valid tls (a ∷ applications) =
    last_valid is_valid (if is_valid a.tls then a.tls else tls) applications

-- Whether an attempt gets a port: the first, or where the port is in use, and not already any port,
-- the second.
abbrev pub gets_port : ℕ → Application → Bool
gets_port desired_port a = elim a.first [
  | bound port ↦ true
  | in_use ↦
      not (desired_port == 0)
      && elim a.again [ bound port ↦ true | in_use ↦ false | cannot ↦ false ]
  | cannot ↦ false
]

-- What is served where no TLS server is there yet and none has failed to start: nothing until an
-- application is the first that gets a port or cannot be tried, and then nothing if it cannot.
abbrev pub served : (Pem → Bool) → ℕ → List Application → Option Pem
served is_valid desired_port [] = none
served is_valid desired_port (a ∷ applications) =
    if not (is_valid a.tls) || ltb 65_535 desired_port
    then none
    else if gets_port desired_port a
    then some (last_valid is_valid a.tls applications)
    else served is_valid desired_port applications

abbrev pub certificate : Option (ℕ × Pem) → Option Pem
certificate none = none
certificate (some (port, tls)) = some tls

listen-gets_port :
    (desired_port : ℕ) (a : Application)
    → is_some (listen desired_port a.first a.again) ≡ gets_port desired_port a
unfolding listen
listen-gets_port desired_port a = ground arith

certificate-start_tls :
    (tls : Pem) (listening : Option ℕ)
    → certificate (start_tls tls listening) ≡ (if is_some listening then some tls else none)
certificate-start_tls tls none = refl
certificate-start_tls tls (some port) = refl

module _ (env : Text → Option Text) (is_valid : Pem → Bool) (desired_port : ℕ)
    (enabled : is_switched_on (env (codes "METRICS_HTTPS_ENABLED")) ≡ true)
    (not_disabled : is_disabled (env (codes "METRICS_DISABLED")) ≡ false) where
  -- The certificate that is served after the applications.
  abbrev applied : List Application → Servers → Option Pem
  applied applications s =
      certificate (apply_all env is_valid desired_port applications s).tls_server

  apply_enabled :
      (a : Application) (s : Servers)
      → apply_auto_tls_pem env is_valid desired_port a.first a.again a.tls s
        ≡ renew is_valid desired_port a.tls (listen desired_port a.first a.again) s
  unfolding apply_auto_tls_pem
  apply_enabled a s = rw (enabled, not_disabled) refl

  applied-next :
      (a : Application) (applications : List Application) (s : Servers)
      → applied (a ∷ applications) s
        ≡ applied applications
            (renew is_valid desired_port a.tls (listen desired_port a.first a.again) s)
  unfolding apply_all
  applied-next a applications s = ap (applied applications) (apply_enabled a s)

  applied-running :
      (applications : List Application) (port : ℕ) (tls : Pem) (s : Servers)
      → applied applications (record s { tls_server = some (port, tls) })
        ≡ some (last_valid is_valid tls applications)
  unfolding apply_all renew
  applied-running [] port tls s = refl
  applied-running (a ∷ applications) port tls s =
      applied-next a applications (record s { tls_server = some (port, tls) })
      ∙ applied-running applications port (if is_valid a.tls then a.tls else tls) s

  applied-failed :
      (applications : List Application) (s : Servers)
      → applied applications (record s { tls_server = none; tls_start_failed = true }) ≡ none
  unfolding apply_all renew
  applied-failed [] s = refl
  applied-failed (a ∷ applications) s =
      applied-next a applications (record s { tls_server = none; tls_start_failed = true })
      ∙ applied-failed applications s

  applied-first :
      (applications : List Application) (tls : Pem) (fails : Bool) (listening : Option ℕ)
      → applied applications new_servers ≡ served is_valid desired_port applications
      → applied applications (
          if fails
          then record new_servers { tls_start_failed = true }
          else record new_servers { tls_server = start_tls tls listening })
        ≡ (if fails
            then none
            else if is_some listening
            then some (last_valid is_valid tls applications)
            else served is_valid desired_port applications)
  applied-first applications tls true listening later = applied-failed applications new_servers
  applied-first applications tls false (some port) later =
      applied-running applications port tls new_servers
  applied-first applications tls false none later = later

  applied-new :
      (applications : List Application)
      → applied applications new_servers ≡ served is_valid desired_port applications
  unfolding apply_all renew
  applied-new [] = refl
  applied-new (a ∷ applications) =
      applied-next a applications new_servers
      ∙ applied-first applications a.tls (not (is_valid a.tls) || ltb 65_535 desired_port)
          (listen desired_port a.first a.again) (applied-new applications)
      ∙ ap
          (λ b.
            if not (is_valid a.tls) || ltb 65_535 desired_port
            then none
            else if b
            then some (last_valid is_valid a.tls applications)
            else served is_valid desired_port applications)
          (listen-gets_port desired_port a)

  -- Where HTTPS is on and the metrics are not disabled, and certificates are applied to a new
  -- server one after another: nothing is served until the attempt to listen for one of them gets a
  -- port, and from then on the last valid one. If one of those up to there is not valid, or the
  -- configured number is no port, the start is never tried again, and none of the certificates is
  -- ever served.
  pub certificate-apply_all :
      (applications : List Application)
      → certificate (apply_all env is_valid desired_port applications new_servers).tls_server
        ≡ served is_valid desired_port applications
  certificate-apply_all applications = applied-new applications
