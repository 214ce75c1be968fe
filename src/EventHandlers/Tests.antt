-- ===== src/EventHandlers/Tests.antt =====
-- The event handlers on concrete events.
use orbitdb_relay.Prelude.{codes, text_eq, starts_with, true, false, some, [], ◌∷◌, ◌≡◌, refl}
use orbitdb_relay.Exposure.{trim_start, trim_end}
use orbitdb_relay.EventHandlers.{
  closes_connection, remote_has_orbitdb_heads_protocol, setup_event_handlers, provisions, ticks,
  step, run, certificate_handler, tick,
}

closes_stranger :
    closes_connection false
      (some (codes " TRUE "))
      (some (codes "inbound"))
      (some (some (codes "/meshsub/1.1.0") ∷ []))
    ≡ true
unfolding closes_connection remote_has_orbitdb_heads_protocol text_eq trim_start trim_end
    starts_with
closes_stranger = refl

-- The second interval finds a secure address.
one_interval_left :
    (run
      (provisions ∷ provisions ∷ ticks 1 (codes "/sni/a" ∷ []) ∷ [])
      setup_event_handlers).certificate_intervals
    ≡ 0 ∷ []
unfolding run step certificate_handler tick
one_interval_left = refl
