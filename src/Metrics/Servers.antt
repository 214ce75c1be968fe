-- ===== src/Metrics/Servers.antt =====
-- src/services/metrics.ts, `MetricsServer`: its two listeners. A call is cut where it awaits a
-- listener: what each attempt to listen ends in is an argument. A server is the port that it is
-- bound to, and the TLS server its certificate too.
use orbitdb_relay.Prelude.{
  ℕ, Text, codes, text_eq, Bool, true, false, Option, none, some, ◌∷◌, ◌||◌, ltb, not,
  if◌then◌else◌, ◌==◌,
}
use orbitdb_relay.EventHandlers.{is_switched_on}

pub data Listening : Type 0 where
  bound : ℕ → Listening
  in_use : Listening
  cannot : Listening

abbrev pub bound_or_none : Listening → Option ℕ
bound_or_none (bound port) = some port
bound_or_none _ = none

-- `listen(p)`: where the port is in use, once more on any port.
unfoldable pub listen : ℕ → Listening → Listening → Option ℕ
listen p (bound port) again = some port
listen p in_use again = if p == 0 then none else bound_or_none again
listen p cannot again = none

-- Key and certificate.
pub record Pem : Type 0 where
  pub key : Text
  pub cert : Text

-- `tls_start_failed` is a `tlsStartPromise` that was rejected: no code path resets it.
pub record Servers : Type 0 where
  pub server : Option ℕ
  pub tls_server : Option (ℕ × Pem)
  pub tls_start_failed : Bool
  pub attached : Bool

abbrev pub new_servers : Servers
new_servers = record {
  server = none;
  tls_server = none;
  tls_start_failed = false;
  attached = false;
}

-- `METRICS_DISABLED`
unfoldable pub is_disabled : Option Text → Bool
is_disabled none = false
is_disabled (some v) = text_eq v (codes "true") || text_eq v (codes "1")

-- `setSecureContext`, which throws where the key and the certificate are not valid: the server then
-- keeps its old ones.
abbrev pub set_secure_context : (Pem → Bool) → Pem → Pem → Pem
set_secure_context is_valid tls old = if is_valid tls then tls else old

-- The executor of the promise of `listen` throws where `https.createServer` does, as the key and
-- the certificate are not valid, or where `server.listen` does, as the number is no port.
abbrev pub start_throws : (Pem → Bool) → ℕ → Pem → Bool
start_throws is_valid desired_port tls = not (is_valid tls) || ltb 65_535 desired_port

abbrev pub start_tls : Pem → Option ℕ → Option (ℕ × Pem)
start_tls tls none = none
start_tls tls (some port) = some (port, tls)

-- One application of the chain that `applyAutoTlsPem` extends: each ends before the next begins,
-- and what it throws is caught at its end. Where an earlier start was rejected, it awaits that
-- promise, which throws.
unfoldable pub renew : (Pem → Bool) → ℕ → Pem → Option ℕ → Servers → Servers
renew is_valid desired_port tls listening s = elim s.tls_server [
  | some (port, old) ↦ record s { tls_server = some (port, set_secure_context is_valid tls old) }
  | none ↦
      if s.tls_start_failed
      then s
      else if start_throws is_valid desired_port tls
      then record s { tls_start_failed = true }
      else record s { tls_server = start_tls tls listening }
]

unfoldable pub apply_auto_tls_pem :
    (Text → Option Text) → (Pem → Bool) → ℕ → Listening → Listening → Pem → Servers → Servers
unfolding listen is_disabled renew
apply_auto_tls_pem env is_valid desired_port first again tls s =
    if not (is_switched_on (env (codes "METRICS_HTTPS_ENABLED")))
      || is_disabled (env (codes "METRICS_DISABLED"))
    then s
    else renew is_valid desired_port tls (listen desired_port first again) s

-- The first component is the server that `start` comes back with, for a number that is a port.
unfoldable pub start :
    (Text → Option Text) → ℕ → Listening → Listening → Servers → Option ℕ × Servers
unfolding listen is_disabled
start env desired_port first again s =
    if is_disabled (env (codes "METRICS_DISABLED")) then (none, s) else elim s.server [
      | some port ↦ (some port, s)
      | none ↦
          (listen desired_port first again, record s { server = listen desired_port first again })
    ]

-- `certificate:provision` and `certificate:renew` with a key and a certificate, while the listener
-- is attached.
abbrev pub given : Option Text → Option Text → Option Pem
given (some (k ∷ key)) (some (c ∷ cert)) = some (record { key = k ∷ key; cert = c ∷ cert })
given _ _ = none

unfoldable pub on_cert :
    (Text → Option Text)
    → (Pem → Bool)
    → ℕ
    → Listening
    → Listening
    → Option Text
    → Option Text
    → Servers
    → Servers
unfolding apply_auto_tls_pem
on_cert env is_valid desired_port first again key cert s =
    if not s.attached then s else elim (given key cert) [
      | none ↦ s
      | some tls ↦ apply_auto_tls_pem env is_valid desired_port first again tls s
    ]

-- `attachAutoTlsFromLibp2p`, with the certificate that is there already, if one is.
unfoldable pub attach :
    (Text → Option Text)
    → (Pem → Bool)
    → ℕ
    → Listening
    → Listening
    → Option Text
    → Option Text
    → Servers
    → Servers
unfolding on_cert
attach env is_valid desired_port first again key cert s =
    on_cert env is_valid desired_port first again key cert (record s { attached = true })

-- The first component says whether it goes through: it awaits a TLS start that was rejected, which
-- throws before anything is closed.
unfoldable pub stop : Servers → Bool × Servers
stop s = if s.tls_start_failed then (false, s) else (true, new_servers)
