-- ===== src/EventHandlers.antt =====
-- src/events/handlers.ts with src/config/orbitdb-inbound-filter-env.ts: the gate on inbound peers,
-- the timers that wait for a secure address, and their removal. The handlers that only log are left
-- out; `peer:disconnect` deletes the peer from the store of libp2p.
pub mod Laws
mod Tests
use orbitdb_relay.Prelude.{
  ℕ, suc, Text, codes, text_eq, starts_with, Bool, true, false, Option, none, some, List, [], ◌∷◌,
  ◌++◌, ◌&&◌, ◌||◌, not, map, any, filter, if◌then◌else◌, ◌==◌,
}
use orbitdb_relay.Exposure.{trim, lower}

abbrev pub is_switched_on : Option Text → Bool
is_switched_on none = false
is_switched_on (some raw) =
    let v = map lower (trim raw) in text_eq v (codes "1") || text_eq v (codes "true")

-- `none` are protocols that are no array; so is a member that is no text.
unfoldable pub remote_has_orbitdb_heads_protocol : Option (List (Option Text)) → Bool
remote_has_orbitdb_heads_protocol none = false
remote_has_orbitdb_heads_protocol (some protocols) =
    any (λ p. elim p [ none ↦ false | some t ↦ starts_with t (codes "/orbitdb/heads/") ]) protocols

-- Whether `peerIdentifyHandler` closes the connection, given its direction, if there is one.
unfoldable pub closes_connection :
    Bool → Option Text → Option Text → Option (List (Option Text)) → Bool
unfolding remote_has_orbitdb_heads_protocol
closes_connection is_shutting_down env direction protocols =
    if is_shutting_down then false else if not (is_switched_on env) then false else elim direction [
      | none ↦ false
      | some d ↦
          if not (text_eq d (codes "inbound"))
          then false
          else not (remote_has_orbitdb_heads_protocol protocols)
    ]

-- The handlers of one call of `setupEventHandlers`: whether they are registered, and the intervals
-- that tick. An interval is a number.
pub record Watching : Type 0 where
  pub is_shutting_down : Bool
  pub is_listening : Bool
  pub certificate_intervals : List ℕ
  pub next_interval : ℕ

abbrev pub setup_event_handlers : Watching
setup_event_handlers = record {
  is_shutting_down = false;
  is_listening = true;
  certificate_intervals = [];
  next_interval = 0;
}

-- `certificateHandler`
unfoldable pub certificate_handler : Watching → Watching
certificate_handler w = record w {
  certificate_intervals = w.certificate_intervals ++ w.next_interval ∷ [];
  next_interval = suc w.next_interval;
}

-- An interval ticks; `secure` are the secure addresses with a server name.
unfoldable pub tick : ℕ → List Text → Watching → Watching
tick i [] w = w
tick i (ma ∷ mas) w = record w {
  certificate_intervals = filter (λ j. not (j == i)) w.certificate_intervals;
}

unfoldable pub clean_up : Watching → Watching
clean_up w = record w { is_shutting_down = true; is_listening = false; certificate_intervals = [] }

pub data Event : Type 0 where
  provisions cleans_up : Event
  ticks : ℕ → List Text → Event

unfoldable pub step : Event → Watching → Watching
unfolding certificate_handler tick clean_up
step provisions w = if w.is_listening then certificate_handler w else w
step (ticks i mas) w = tick i mas w
step cleans_up w = clean_up w

unfoldable pub run : List Event → Watching → Watching
unfolding step
run [] w = w
run (event ∷ events) w = run events (step event w)
