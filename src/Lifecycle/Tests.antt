-- ===== src/Lifecycle/Tests.antt =====
-- Starts and stops of the replication service on concrete runs.
use Prim.Native.String.{String}
use orbitdb_relay.Prelude.{codes, Text, text_eq, Bool, true, List, [], ◌∷◌, ◌≡◌, refl, ◌+◌}
use orbitdb_relay.Service.{PinTask, Service, new_service}
use orbitdb_relay.Lifecycle.{
  stop_database, Event, tries, stops, starts, handlers_throw, step, run, get_stats,
}
use orbitdb_relay.Lifecycle.Laws.{
  nothing, one_if, lost_hooks, IsStopped, run_new-held, stop_database-IsStopped,
}

-- A start that fails behind the hooks, one that goes through, and a stop.
abbrev events : List Event
events = tries handlers_throw ∷ tries starts ∷ stops (λ c. true) ∷ []

run_new-held_example :
    ((run events nothing).held.hooks
      ≡ lost_hooks events nothing + one_if (run events nothing).started)
    × ((run events nothing).held.handlers ≡ one_if (run events nothing).started)
    × ((run events nothing).held.nodes ≡ one_if (run events nothing).started)
run_new-held_example = run_new-held events

-- The hooks of the failed start are still there.
hooks_leak : (run events nothing).held ≡ record { hooks = 1; handlers = 0; nodes = 0 }
unfolding run step
hooks_leak = refl

abbrev pin : String → PinTask
pin c = record { cid = codes c; db_address = codes "/orbitdb/a"; sources = [] }

-- One of the two pins that run fails.
abbrev pins_c : Text → Bool
pins_c c = text_eq c (codes "c")

abbrev watching : Service
watching = record new_service {
  event_handlers = (codes "/orbitdb/a", 1) ∷ [];
  update_timers = codes "/orbitdb/a" ∷ [];
  pinned_open_databases = (codes "/orbitdb/a", 1) ∷ [];
  pin_queue = record { waiting = pin "b" ∷ []; running = pin "c" ∷ pin "d" ∷ [] };
}

stop_database-IsStopped_example : IsStopped watching (stop_database pins_c watching)
stop_database-IsStopped_example = stop_database-IsStopped pins_c watching

no_queue_before_start : get_stats (λ service. 1) 2 (λ a b. a + b) new_service nothing ≡ 1
unfolding get_stats
no_queue_before_start = refl
