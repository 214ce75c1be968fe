-- ===== src/SyncFlight/Tests.antt =====
-- Syncs of src/services/database.ts in flight, on concrete calls.
use orbitdb_relay.Prelude.{Text, codes, none, text_eq, [], ◌∷◌, ◌≡◌, refl, false, suc, arith}
use orbitdb_relay.Prelude.Map
use orbitdb_relay.Service.{InFlight}
use orbitdb_relay.SyncFlight.{
  Flights, Reach, here, next, requests, finishes, request, request_as, admit, begin_pass,
  start_pass, finish, end_pass, wake, Pass, empty_result,
}
use orbitdb_relay.SyncFlight.Laws.{
  no_flights, IsBacked, Reach-IsBacked, request-starts, runs_at, waiter, waiters-start_passes,
}

abbrev db_a : Text
db_a = codes "/orbitdb/a"

abbrev one_runs : Flights
one_runs = request false db_a 10 no_flights

abbrev one_waits : Flights
one_waits = request false db_a 20 one_runs

abbrev first_pass : Pass
first_pass = record { address = db_a; promise = 0 }

abbrev has_ended : Flights
has_ended = finish first_pass [] empty_result one_waits

has_ended-Reach : Reach no_flights has_ended
unfolding request request_as admit start_pass begin_pass Map.get Map.set text_eq
has_ended-Reach =
    next (next (next here (requests no_flights false db_a 10)) (requests one_runs false db_a 20))
      (finishes one_waits [] [] first_pass empty_result refl)

Reach-IsBacked_example : IsBacked db_a has_ended
Reach-IsBacked_example = Reach-IsBacked db_a has_ended-Reach

has_ended_up : has_ended.service.is_shutting_down ≡ false
unfolding request request_as admit start_pass begin_pass finish end_pass Map.get Map.set text_eq
has_ended_up = refl

has_ended_idle : runs_at db_a has_ended.passes ≡ 0
unfolding finish
has_ended_idle = refl

request-starts_example :
    (request false db_a 90 has_ended).passes
    ≡ record { address = db_a; promise = has_ended.next_promise } ∷ has_ended.passes
request-starts_example = request-starts db_a false 90 has_ended-Reach has_ended_up has_ended_idle

abbrev ended_record : InFlight
ended_record = record { promise = 0; started_at = 10 }

has_ended_gone : Map.get db_a has_ended.service.sync_in_flight ≡ none
unfolding request request_as admit start_pass begin_pass finish end_pass Map.get Map.set Map.delete
    text_eq
has_ended_gone = refl

has_ended_next : has_ended.next_promise ≡ 1
unfolding request request_as admit start_pass begin_pass finish Map.get Map.set text_eq
has_ended_next = refl

waiters-start_passes_example :
    (wake (waiter db_a ended_record) [] 91 (wake (waiter db_a ended_record) [] 90 has_ended)).passes
    ≡ record { address = db_a; promise = suc has_ended.next_promise }
      ∷ record { address = db_a; promise = has_ended.next_promise }
      ∷ has_ended.passes
waiters-start_passes_example =
    waiters-start_passes db_a ended_record 90 91 [] [] has_ended has_ended_gone
      (rw has_ended_next (omega arith))
