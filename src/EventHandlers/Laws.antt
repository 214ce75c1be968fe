-- ===== src/EventHandlers/Laws.antt =====
-- Theorems about the event handlers of src/events/handlers.ts.
use orbitdb_relay.Prelude.{Text, true, false, Option, List, [], ◌∷◌, ◌≡◌, refl, arith}
use orbitdb_relay.EventHandlers.{
  Watching, Event, provisions, cleans_up, ticks, clean_up, step, run, closes_connection,
}

abbrev pub IsOver : Watching → Type 0
IsOver w = (w.is_shutting_down ≡ true) × (w.is_listening ≡ false) × (w.certificate_intervals ≡ [])

step-IsOver : (event : Event) (w : Watching) → IsOver w → IsOver (step event w)
unfolding step
step-IsOver provisions w h = ground arith
step-IsOver cleans_up w h = ground arith
step-IsOver (ticks i []) w h = h
step-IsOver (ticks i (ma ∷ mas)) w h = ground arith

run-IsOver : (events : List Event) (w : Watching) → IsOver w → IsOver (run events w)
unfolding run
run-IsOver [] w h = h
run-IsOver (event ∷ events) w h = run-IsOver events (step event w) (step-IsOver event w h)

-- Whatever happens before and behind the clean-up, no interval ticks behind it, and no inbound
-- connection is closed for the protocols of its peer.
clean_up-IsOver :
    (events : List Event) (w : Watching)
    → IsOver (run events (clean_up w))
      × ((env : Option Text) (direction : Option Text) (protocols : Option (List (Option Text)))
          → closes_connection (run events (clean_up w)).is_shutting_down env direction protocols
            ≡ false)
unfolding clean_up closes_connection
clean_up-IsOver events w =
    let over = run-IsOver events (clean_up w) (refl, refl, refl) in
    (over, λ env direction protocols. rw over.0 refl)
