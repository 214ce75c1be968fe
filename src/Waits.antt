-- ===== src/Waits.antt =====
-- src/services/database.ts, the loops that poll with a delay: `waitForUpdateEvent`,
-- `waitForDatabaseActivity`, `waitForDatabaseHeads` and `waitForRegisteredHeadsHandler`. What a
-- loop finds when it tests its condition for the i-th time is a function of i: the time since the
-- start, whether the service shuts down, and what it looks for. The databases have event emitters.
pub mod Laws
mod Tests
use orbitdb_relay.Prelude.{
  ℕ, zero, suc, ◌+◌, ◌-◌, Text, Bool, true, false, Option, none, some, List, [], ◌∷◌, ◌++◌, ◌&&◌,
  ◌||◌, not, if◌then◌else◌, ltb, leb, is_some, get_or, last, length, filter,
}
use orbitdb_relay.Peers.{is_empty}

-- The first round from the i-th on at which the loop stops; `none` when the fuel runs out.
unfoldable pub first_stop : ℕ → (ℕ → Bool) → ℕ → Option ℕ
first_stop zero stops i = none
first_stop (suc fuel) stops i =
    let rest = first_stop fuel stops (suc i) in if stops i then some i else rest

pub record Rounds : Type 0 where
  pub elapsed : ℕ → ℕ
  pub is_shutting_down : ℕ → Bool

-- `!this.isShuttingDown && Date.now() - startedAt < timeoutMs`
abbrev pub goes_on : Rounds → ℕ → ℕ → Bool
goes_on rounds timeout_ms i = not (rounds.is_shutting_down i) && ltb (rounds.elapsed i) timeout_ms

-- A look-up that throws or finds nothing is `none`.
abbrev pub stops_looking {ℓ} : {A : Type ℓ} → Rounds → ℕ → (ℕ → Option A) → ℕ → Bool
stops_looking rounds timeout_ms look_up i = not (goes_on rounds timeout_ms i) || is_some (look_up i)

abbrev pub looked_up {ℓ} : {A : Type ℓ} → Rounds → ℕ → (ℕ → Option A) → Option ℕ → Option (Option A)
looked_up rounds timeout_ms look_up none = none
looked_up rounds timeout_ms look_up (some i) =
    some (if goes_on rounds timeout_ms i then look_up i else none)

-- What the loop finds, or `some none` where it gives up.
unfoldable pub wait_for_registered_heads_handler {ℓ} :
    {Handler : Type ℓ} → ℕ → Rounds → ℕ → (ℕ → Option Handler) → Option (Option Handler)
unfolding first_stop
wait_for_registered_heads_handler fuel rounds timeout_ms look_up =
    looked_up rounds timeout_ms look_up
      (first_stop fuel (stops_looking rounds timeout_ms look_up) 0)

-- The hashes of the heads, where there are any; `none` is a log that cannot be read.
abbrev pub some_heads : Option (List Text) → Option (List Text)
some_heads none = none
some_heads (some hashes) = elim (filter (λ hash. not (is_empty hash)) hashes) [
  | [] ↦ none
  | h ∷ hs ↦ some (h ∷ hs)
]

unfoldable pub wait_for_database_heads :
    ℕ → Rounds → ℕ → (ℕ → Option (List Text)) → Option (Option (List Text))
unfolding first_stop
wait_for_database_heads fuel rounds timeout_ms heads =
    looked_up rounds timeout_ms (λ i. some_heads (heads i))
      (first_stop fuel (stops_looking rounds timeout_ms (λ i. some_heads (heads i))) 0)

-- `join` and `update` events, as the listeners saw them before a round.
pub data Activity : Type 0 where
  join update : Activity

-- `activity`, after the events so far.
unfoldable pub activity_of : List Activity → Option Activity
activity_of [] = none
activity_of (join ∷ events) = elim (activity_of events) [ none ↦ some join | some a ↦ some a ]
activity_of (update ∷ events) = some update

abbrev pub at_stop {ℓ} : {A : Type ℓ} → (ℕ → A) → Option ℕ → Option A
at_stop value none = none
at_stop value (some i) = some (value i)

unfoldable pub wait_for_database_activity :
    ℕ → Rounds → ℕ → (ℕ → List Activity) → Option (Option Activity)
unfolding first_stop activity_of
wait_for_database_activity fuel rounds timeout_ms events =
    at_stop (λ i. activity_of (events i))
      (first_stop fuel (λ i. is_some (activity_of (events i)) || not (goes_on rounds timeout_ms i))
        0)

-- An `update` event: when it came, and its entry, which may be missing.
pub record Update (Entry : Type 0) : Type 0 where
  pub came_at : ℕ
  pub entry : Option Entry

module _ {Entry : Type 0} where
  -- The entries that the listener has collected.
  abbrev pub entries : List (Update Entry) → List Entry
  entries [] = []
  entries (u ∷ updates) = elim u.entry [
    | none ↦ entries updates
    | some entry ↦ entry ∷ entries updates
  ]

  abbrev pub did_update : List (Update Entry) → Bool
  did_update [] = false
  did_update (u ∷ updates) = true

  abbrev pub last_update_at : List (Update Entry) → ℕ
  last_update_at [] = 0
  last_update_at (u ∷ []) = u.came_at
  last_update_at (u ∷ v ∷ updates) = last_update_at (v ∷ updates)

  -- Less than 300 ms have passed since the last update.
  abbrev pub is_burst : Rounds → List (Update Entry) → ℕ → Bool
  is_burst rounds updates i = ltb (rounds.elapsed i) (last_update_at updates + 300)

  abbrev pub stops_waiting : Rounds → ℕ → (ℕ → List (Update Entry)) → ℕ → Bool
  stops_waiting rounds timeout_ms updates i =
      did_update (updates i) || not (goes_on rounds timeout_ms i)

  abbrev pub stops_collecting : Rounds → ℕ → (ℕ → List (Update Entry)) → ℕ → Bool
  stops_collecting rounds timeout_ms updates i =
      not (did_update (updates i) && goes_on rounds timeout_ms i && is_burst rounds (updates i) i)

  abbrev pub collected : (ℕ → List (Update Entry)) → Option ℕ → Option (Bool × List Entry)
  collected updates none = none
  collected updates (some i) = some (did_update (updates i), entries (updates i))

  -- `updates i` are the events that came before the i-th test, of either loop.
  unfoldable pub wait_for_update_event :
      ℕ → Rounds → ℕ → (ℕ → List (Update Entry)) → Option (Bool × List Entry)
  unfolding first_stop
  wait_for_update_event fuel rounds timeout_ms updates =
      elim (first_stop fuel (stops_waiting rounds timeout_ms updates) 0) [
        | none ↦ none
        | some i ↦
            collected updates (first_stop fuel (stops_collecting rounds timeout_ms updates) i)
      ]
