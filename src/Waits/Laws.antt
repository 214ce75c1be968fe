-- ===== src/Waits/Laws.antt =====
-- Theorems about the polling loops of src/services/database.ts.
use mathlib.Core.Path.{subst}
use orbitdb_relay.Prelude.{
  ◌==◌, ==_iff, is_some, last, leb, ◌||◌, ◌&&◌, not, sym, ◌∙◌, [], ◌∷◌, ℕ, zero, suc, ◌+◌, ◌*◌, ◌≤◌,
  ◌<◌, Bool, true, false, Option, none, some, List, if◌then◌else◌, ◌≡◌, refl, arith, inl, inr,
  Bool-cases,
}
use orbitdb_relay.Waits.{
  first_stop, Rounds, goes_on, stops_looking, wait_for_registered_heads_handler, Update, entries,
  did_update, is_burst, stops_waiting, stops_collecting, wait_for_update_event,
}

-- Each delay of a loop takes `step` milliseconds at least.
abbrev pub IsTimed : Rounds → ℕ → Type 0
IsTimed rounds step = (i : ℕ) → i * step ≤ rounds.elapsed i

-- Round `j` is the first one from `i` on at which the loop stops.
pub record Stops (stops : ℕ → Bool) (i j : ℕ) : Type 0 where
  pub reached : i ≤ j
  pub ends : stops j ≡ true
  pub continues : (k : ℕ) → i ≤ k → k < j → stops k ≡ false

first_stop-suc :
    (fuel : ℕ) (stops : ℕ → Bool) (i : ℕ)
    → stops i ≡ false
    → first_stop (suc fuel) stops i ≡ first_stop fuel stops (suc i)
unfolding first_stop
first_stop-suc fuel stops i more = rw more refl

Stops-before :
    (stops : ℕ → Bool) (i j : ℕ) → stops i ≡ false → Stops stops (suc i) j → Stops stops i j
Stops-before stops i j more s = record {
  reached = omega (arith, s.reached);
  ends = s.ends;
  continues = λ k from_i below. elim (Bool-cases (i == k)) [
    | inl same ↦ subst (λ m. stops m ≡ false) ((==_iff i k).0 same) more
    | inr later ↦ s.continues k (ground arith) below
  ];
}

-- A loop that stops at round `n` at the latest ends, given fuel for the rounds up to there.
first_stop-Stops :
    (fuel : ℕ) (stops : ℕ → Bool) (i n : ℕ)
    → stops n ≡ true
    → i ≤ n
    → n < i + fuel
    → (j : ℕ) × (first_stop fuel stops i ≡ some j) × (j ≤ n) × Stops stops i j
unfolding first_stop
first_stop-Stops zero stops i n end from_i enough = absurd (omega arith)
first_stop-Stops (suc fuel) stops i n end from_i enough = elim (Bool-cases (stops i)) [
  | inl now ↦ (
    i,
    rw now refl,
    from_i,
    record { reached = omega arith; ends = now; continues = λ k a b. absurd (omega arith) },
  )
  | inr more ↦ elim (Bool-cases (i == n)) [
    | inl same ↦ absurd (cc (subst (λ m. stops m ≡ false) ((==_iff i n).0 same) more, end))
    | inr later ↦
        let (j, found, bound, s) =
          first_stop-Stops fuel stops (suc i) n end (ground arith) (omega arith) in
        (j, rw more found, bound, Stops-before stops i j more s)
  ]
]

late :
    (rounds : Rounds) (step timeout_ms n : ℕ)
    → IsTimed rounds step
    → timeout_ms ≤ n * step
    → goes_on rounds timeout_ms n ≡ false
late rounds step timeout_ms n timed h = ground (arith, timed n)

module _ {Entry : Type 0} (rounds : Rounds) (timeout_ms : ℕ)
    (updates : ℕ → List (Update Entry)) where
  -- The service shuts down, or the time is up.
  abbrev pub is_over : ℕ → Bool
  is_over i = rounds.is_shutting_down i || leb timeout_ms (rounds.elapsed i)

  -- An update has come, or it is over.
  abbrev pub waited : ℕ → Bool
  waited i = is_some (last (updates i)) || is_over i

  -- 300 ms have passed since the last update, or it is over.
  abbrev pub is_quiet : ℕ → Bool
  is_quiet i =
      is_over i
      || elim (last (updates i)) [ none ↦ true | some u ↦ leb (u.came_at + 300) (rounds.elapsed i) ]

pub Stops-same :
    {stops halts : ℕ → Bool} {i j : ℕ}
    → ((k : ℕ) → stops k ≡ halts k)
    → Stops stops i j
    → Stops halts i j
Stops-same same s = record {
  reached = s.reached;
  ends = sym (same _) ∙ s.ends;
  continues = λ k from_i below. sym (same k) ∙ s.continues k from_i below;
}

did_update-last :
    {Entry : Type 0} (updates : List (Update Entry)) → did_update updates ≡ is_some (last updates)
did_update-last [] = refl
did_update-last (u ∷ []) = refl
did_update-last (u ∷ v ∷ updates) = did_update-last (v ∷ updates)

is_burst-last :
    {Entry : Type 0} (rounds : Rounds) (updates : List (Update Entry)) (i : ℕ)
    → (did_update updates && is_burst rounds updates i)
      ≡ not
          (elim (last updates) [ none ↦ true | some u ↦ leb (u.came_at + 300) (rounds.elapsed i) ])
is_burst-last rounds [] i = refl
is_burst-last rounds (u ∷ []) i = ground arith
is_burst-last rounds (u ∷ v ∷ updates) i = is_burst-last rounds (v ∷ updates) i

module _ {Entry : Type 0} (rounds : Rounds) (timeout_ms : ℕ)
    (updates : ℕ → List (Update Entry)) where
  stops_waiting-waited :
      (i : ℕ) → stops_waiting rounds timeout_ms updates i ≡ waited rounds timeout_ms updates i
  stops_waiting-waited i = ground (arith, did_update-last (updates i))

  stops_collecting-is_quiet :
      (i : ℕ) → stops_collecting rounds timeout_ms updates i ≡ is_quiet rounds timeout_ms updates i
  stops_collecting-is_quiet i = ground (arith, is_burst-last rounds (updates i) i)

-- `waitForUpdateEvent` ends after no more rounds than its timeout has time for, given fuel for them
-- and if each delay takes 100 ms at least. It first waits up to the first round at which an update
-- has come, the timeout has passed or the service shuts down; and from there on to the first round
-- at which no update has come or 300 ms have passed since the last, the timeout has passed or the
-- service shuts down. It reports whether an update had come by then, and the entries of all that
-- had.
pub wait_for_update_event_ends :
    {Entry : Type 0} (fuel n : ℕ) (rounds : Rounds) (timeout_ms : ℕ)
    (updates : ℕ → List (Update Entry))
    → IsTimed rounds 100
    → timeout_ms ≤ n * 100
    → n < fuel
    → (i j : ℕ) × (wait_for_update_event fuel rounds timeout_ms updates
        ≡ some (did_update (updates j), entries (updates j)))
      × (j ≤ n)
      × Stops (waited rounds timeout_ms updates) 0 i
      × Stops (is_quiet rounds timeout_ms updates) i j
unfolding wait_for_update_event
wait_for_update_event_ends fuel n rounds timeout_ms updates timed bound enough =
    let over = late rounds 100 timeout_ms n timed bound in
    let (i, first, i_bound, waiting) =
      first_stop-Stops fuel (stops_waiting rounds timeout_ms updates) 0 n (ground arith)
        (omega arith) (omega arith) in
    let (j, second, j_bound, collecting) =
      first_stop-Stops fuel (stops_collecting rounds timeout_ms updates) i n (ground arith) i_bound
        (omega arith) in
    (
      i,
      j,
      rw (first, wait_for_update_event, second) refl,
      j_bound,
      Stops-same (stops_waiting-waited rounds timeout_ms updates) waiting,
      Stops-same (stops_collecting-is_quiet rounds timeout_ms updates) collecting,
    )

-- A look-up loop ends within its timeout. It gives what the first successful look-up gives, if that
-- one is made in time and before the service shuts down, and nothing otherwise.
pub looks_up {ℓ} :
    {Handler : Type ℓ} (fuel n : ℕ) (rounds : Rounds) (timeout_ms : ℕ)
    (look_up : ℕ → Option Handler)
    → IsTimed rounds 50
    → timeout_ms ≤ n * 50
    → n < fuel
    → (j : ℕ) × (wait_for_registered_heads_handler fuel rounds timeout_ms look_up
        ≡ some (if goes_on rounds timeout_ms j then look_up j else none))
      × (j ≤ n)
      × Stops (stops_looking rounds timeout_ms look_up) 0 j
unfolding wait_for_registered_heads_handler
looks_up fuel n rounds timeout_ms look_up timed bound enough =
    let over = late rounds 50 timeout_ms n timed bound in
    let (j, first, j_bound, looking) =
      first_stop-Stops fuel (stops_looking rounds timeout_ms look_up) 0 n (ground arith)
        (omega arith) (omega arith) in
    (j, rw (first, wait_for_registered_heads_handler) refl, j_bound, looking)
