-- ===== src/Waits/Tests.antt =====
-- The polling loops of src/services/database.ts on concrete rounds of 100 ms.
use orbitdb_relay.Prelude.{
  ℕ, ◌*◌, ◌≤◌, true, false, none, some, List, [], ◌∷◌, ◌≡◌, refl, arith, if◌then◌else◌, ltb,
}
use orbitdb_relay.Waits.{
  Rounds, goes_on, stops_looking, wait_for_registered_heads_handler, Update, entries, did_update,
  wait_for_update_event, join, update, wait_for_database_activity,
}
use orbitdb_relay.Waits.Laws.{waited, is_quiet, Stops, wait_for_update_event_ends, looks_up}

abbrev rounds : Rounds
rounds = record { elapsed = λ i. i * 100; is_shutting_down = λ i. false }

-- One update with an entry in the second round.
abbrev updates : ℕ → List (Update ℕ)
updates i = if ltb 1 i then record { came_at = 150; entry = some 7 } ∷ [] else []

wait_for_update_event_ends_example :
    (i j : ℕ) × (wait_for_update_event 11 rounds 1000 updates
      ≡ some (did_update (updates j), entries (updates j)))
    × (j ≤ 10)
    × Stops (waited rounds 1000 updates) 0 i
    × Stops (is_quiet rounds 1000 updates) i j
wait_for_update_event_ends_example =
    wait_for_update_event_ends 11 10 rounds 1000 updates (λ i. omega arith) (omega arith)
      (omega arith)

burst : wait_for_update_event 11 rounds 1000 updates ≡ some (true, 7 ∷ [])
unfolding wait_for_update_event
burst = refl

looks_up_example :
    (j : ℕ) × (wait_for_registered_heads_handler 21 rounds 1000 (λ i. some i)
      ≡ some (if goes_on rounds 1000 j then some j else none))
    × (j ≤ 20)
    × Stops (stops_looking rounds 1000 (λ i. some i)) 0 j
looks_up_example =
    looks_up 21 20 rounds 1000 (λ i. some i) (λ i. omega arith) (omega arith) (omega arith)

update_wins :
    wait_for_database_activity 3 rounds 1000 (λ i. join ∷ update ∷ []) ≡ some (some update)
unfolding wait_for_database_activity
update_wins = refl
