-- ===== src/SyncFlight/Laws.antt =====
-- Theorems about the syncs in flight of src/services/database.ts.
use orbitdb_relay.Prelude.{
  ℕ, suc, ◌+◌, ◌≤◌, ◌<◌, Text, text_eq, text_eq_iff, Bool, true, false, Option, none, some, List,
  [], ◌∷◌, ◌++◌, ◌≡◌, refl, ◌&&◌, if◌then◌else◌, ltb, ◌==◌, ==_iff, Bool-cases, Option-cases, inl,
  inr, arith,
}
use orbitdb_relay.Prelude.Map
use orbitdb_relay.Retention.{is_in_flight}
use orbitdb_relay.Service.{Service, InFlight, new_service}
use orbitdb_relay.SyncFlight.{
  Admission, begins, admit, SyncResult, empty_result, begin_pass, end_pass, drop_record, Pass,
  Waiter, Flights, start_pass, request, request_as, wake, finish, Step, requests, wakes, gives_up,
  finishes, breaks, break_off, elsewhere, Reach, here, next,
}

-- The passes that run with this promise for an address.
abbrev pub runs : Text → ℕ → List Pass → ℕ
runs a n [] = 0
runs a n (p ∷ ps) = (if text_eq p.address a && (p.promise == n) then 1 else 0) + runs a n ps

abbrev pub runs_at : Text → List Pass → ℕ
runs_at a [] = 0
runs_at a (p ∷ ps) = (if text_eq p.address a then 1 else 0) + runs_at a ps

runs-append :
    (a : Text) (n : ℕ) (ps qs : List Pass) → runs a n (ps ++ qs) ≡ runs a n ps + runs a n qs
runs-append a n [] qs = omega arith
runs-append a n (p ∷ ps) qs = omega (arith, runs-append a n ps qs)

runs-runs_at : (a : Text) (n : ℕ) (ps : List Pass) → runs a n ps ≤ runs_at a ps
runs-runs_at a n [] = omega arith
runs-runs_at a n (p ∷ ps) = ground (arith, runs-runs_at a n ps)

-- A record, if there is one, is that of a pass that runs.
abbrev pub is_backed : Text → Option InFlight → List Pass → Bool
is_backed a none passes = true
is_backed a (some e) passes = ltb 0 (runs a e.promise passes)

abbrev pub IsBacked : Text → Flights → Type 0
IsBacked a f = is_backed a (Map.get a f.service.sync_in_flight) f.passes ≡ true

more-is_backed :
    (a : Text) (e : Option InFlight) (p : Pass) (ps : List Pass)
    → is_backed a e ps ≡ true
    → is_backed a e (p ∷ ps) ≡ true
more-is_backed a none p ps v = refl
more-is_backed a (some e) p ps v = ground (arith, v)

deleted-is_backed :
    (a b : Text) (s : Service) (ps : List Pass)
    → is_backed a (Map.get a s.sync_in_flight) ps ≡ true
    → is_backed a (Map.get a (Map.delete b s.sync_in_flight)) ps ≡ true
deleted-is_backed a b s ps v =
    rw (Map.get-delete a b s.sync_in_flight)
      (elim (Bool-cases (text_eq b a)) [ inl same ↦ rw same refl | inr other ↦ rw other v ])

-- The end of another pass leaves the pass of the record.
other-is_backed :
    (a : Text) (before after : List Pass) (p : Pass) (e : Option InFlight)
    → (text_eq p.address a && is_in_flight e p.promise) ≡ false
    → is_backed a e (before ++ p ∷ after) ≡ true
    → is_backed a e (before ++ after) ≡ true
other-is_backed a before after p none other v = refl
other-is_backed a before after p (some e) other v = ground (
  arith,
  v,
  other,
  ==_iff e.promise p.promise,
  ==_iff p.promise e.promise,
  runs-append a e.promise before (p ∷ after),
  runs-append a e.promise before after,
)

start_pass-IsBacked :
    (a b : Text) (now : ℕ) (f : Flights) → IsBacked a f → IsBacked a (start_pass b now f)
unfolding start_pass begin_pass
start_pass-IsBacked a b now f v =
    let e : InFlight = record { promise = f.next_promise; started_at = now } in
    rw (Map.get-set a b e f.service.sync_in_flight) (elim (Bool-cases (text_eq b a)) [
      | inl same ↦ rw same (ground (arith, ==_iff f.next_promise f.next_promise))
      | inr other ↦ rw other (more-is_backed a (Map.get a f.service.sync_in_flight) _ f.passes v)
    ])

drop_record-IsBacked :
    (a b : Text) (e : InFlight) (rest : List Waiter) (f : Flights)
    → IsBacked a f
    → IsBacked a (record f { waiters = rest; service = drop_record b e f.service })
unfolding drop_record
drop_record-IsBacked a b e rest f v =
    elim (Bool-cases (is_in_flight (Map.get b f.service.sync_in_flight) e.promise)) [
      | inl found ↦ simp found (deleted-is_backed a b f.service f.passes v)
      | inr gone ↦ simp gone v
    ]

request_as-IsBacked :
    (ad : Admission) (a b : Text) (now : ℕ) (f : Flights)
    → IsBacked a f
    → IsBacked a (request_as ad b now f)
unfolding request_as
request_as-IsBacked begins a b now f v = start_pass-IsBacked a b now f v
request_as-IsBacked _ a b now f v = v

request-IsBacked :
    (fresh : Bool) (a b : Text) (now : ℕ) (f : Flights)
    → IsBacked a f
    → IsBacked a (request fresh b now f)
unfolding request
request-IsBacked fresh a b now f v = request_as-IsBacked (admit fresh b f.service) a b now f v

wake-IsBacked :
    (a : Text) (w : Waiter) (rest : List Waiter) (now : ℕ) (f : Flights)
    → IsBacked a f
    → IsBacked a (wake w rest now f)
unfolding wake
wake-IsBacked a w rest now f v = elim (Bool-cases w.require_fresh) [
  | inl fresh ↦ simp fresh (
      request-IsBacked false a w.address now _
        (drop_record-IsBacked a w.address w.existing rest f v))
  | inr plain ↦
      elim (Bool-cases
        (is_in_flight (Map.get w.address f.service.sync_in_flight) w.existing.promise)) [
          | inl found ↦ simp (plain, found) v
          | inr gone ↦
              simp (plain, gone)
                (start_pass-IsBacked a w.address now (record f { waiters = rest }) v)
        ]
]

finish-IsBacked :
    (a : Text) (before after : List Pass) (p : Pass) (result : SyncResult) (f : Flights)
    → f.passes ≡ before ++ p ∷ after
    → IsBacked a f
    → IsBacked a (finish p (before ++ after) result f)
unfolding finish end_pass
finish-IsBacked a before after p result f e v =
    let old = rw e at v in
    elim (Bool-cases (is_in_flight (Map.get p.address f.service.sync_in_flight) p.promise)) [
      | inl own ↦ simp own (
          rw (Map.get-delete a p.address f.service.sync_in_flight)
            (elim (Bool-cases (text_eq p.address a)) [
              | inl same ↦ rw same refl
              | inr apart ↦ rw apart (
                  other-is_backed a before after p (Map.get a f.service.sync_in_flight)
                    (rw apart refl) old)
            ]))
      | inr other ↦ simp other (
          other-is_backed a before after p (Map.get a f.service.sync_in_flight)
            (ground (arith, other, text_eq_iff p.address a)) old)
    ]

break_off-IsBacked :
    (a : Text) (before after : List Pass) (p : Pass) (f : Flights)
    → f.passes ≡ before ++ p ∷ after
    → IsBacked a f
    → IsBacked a (break_off p (before ++ after) f)
unfolding break_off finish
break_off-IsBacked a before after p f e v = finish-IsBacked a before after p empty_result f e v

Step-IsBacked : {f g : Flights} (a : Text) → Step f g → IsBacked a f → IsBacked a g
Step-IsBacked a (requests f fresh b now) v = request-IsBacked fresh a b now f v
Step-IsBacked a (wakes f before after w now e) v = wake-IsBacked a w (before ++ after) now f v
Step-IsBacked a (gives_up f before after w e) v = v
Step-IsBacked a (finishes f before after p result e) v =
    finish-IsBacked a before after p result f e v
Step-IsBacked a (breaks f before after p e) v = break_off-IsBacked a before after p f e v
Step-IsBacked a (elsewhere f service e) v = rw e v

abbrev pub no_flights : Flights
no_flights = record {
  service = new_service;
  next_promise = 0;
  passes = [];
  waiters = [];
  answers = [];
}

-- However requests, waits and passes interleave, the record of a sync in flight for an address is
-- that of a pass that still runs for the address.
pub Reach-IsBacked : (a : Text) {f : Flights} → Reach no_flights f → IsBacked a f
unfolding Map.get
Reach-IsBacked a here = refl
Reach-IsBacked a (next r st) = Step-IsBacked a st (Reach-IsBacked a r)

-- A request for an address that no pass runs for starts one at once, in every reachable state
-- before the shutdown.
pub request-starts :
    (a : Text) {f : Flights} (fresh : Bool) (now : ℕ)
    → Reach no_flights f
    → f.service.is_shutting_down ≡ false
    → runs_at a f.passes ≡ 0
    → (request fresh a now f).passes ≡ record { address = a; promise = f.next_promise } ∷ f.passes
unfolding request admit start_pass
request-starts a {f} fresh now r up idle =
    elim (Option-cases (Map.get a f.service.sync_in_flight)) [
      | inl gone ↦ rw (up, gone) refl
      | inr (e, found) ↦ absurd (
          ground (arith, rw found at (Reach-IsBacked a r), runs-runs_at a e.promise f.passes, idle))
    ]

abbrev pub waiter : Text → InFlight → Waiter
waiter a existing = record { address = a; existing = existing; require_fresh = false }

wake_starts :
    (a : Text) (e : InFlight) (now : ℕ) (rest : List Waiter) (f : Flights)
    → is_in_flight (Map.get a f.service.sync_in_flight) e.promise ≡ false
    → wake (waiter a e) rest now f ≡ start_pass a now (record f { waiters = rest })
unfolding wake
wake_starts a e now rest f gone = rw gone refl

-- Two waiters that are no explicit syncs (their requireFresh is unset) and wait for the same pass
-- of an address are not coalesced with each other: when both go on while no sync of the address is
-- recorded, each starts a pass of its own for it, and the two run side by side.
pub waiters-start_passes :
    (a : Text) (e : InFlight) (now later : ℕ) (rest rest' : List Waiter) (f : Flights)
    → Map.get a f.service.sync_in_flight ≡ none
    → e.promise < f.next_promise
    → (wake (waiter a e) rest' later (wake (waiter a e) rest now f)).passes
      ≡ record { address = a; promise = suc f.next_promise }
        ∷ record { address = a; promise = f.next_promise }
        ∷ f.passes
unfolding start_pass begin_pass
waiters-start_passes a e now later rest rest' f gone older =
    let g = start_pass a now (record f { waiters = rest }) in
    let new : InFlight = record { promise = f.next_promise; started_at = now } in
    let first = wake_starts a e now rest f (rw gone refl) in
    let apart : is_in_flight (Map.get a g.service.sync_in_flight) e.promise ≡ false =
      rw (Map.get-set_self a new f.service.sync_in_flight)
        (ground (arith, older, ==_iff f.next_promise e.promise)) in
    rw first (rw (wake_starts a e later rest' g apart) refl)
