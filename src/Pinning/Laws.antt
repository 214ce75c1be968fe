-- ===== src/Pinning/Laws.antt =====
-- Theorems about the media pin queue of src/services/database.ts.
use orbitdb_relay.Prelude.{
  ℕ, ◌+◌, ◌≤◌, Text, text_eq, text_eq_iff, Bool, true, false, some, List, [], ◌∷◌, ◌++◌, ◌||◌, ◌&&◌,
  if◌then◌else◌, ◌≡◌, refl, arith, ◌⊎◌, inl, inr, Option-cases, Bool-cases,
}
use orbitdb_relay.Prelude.Map
use orbitdb_relay.Prelude.TextSet
use orbitdb_relay.Prelude.TextSet.{TextSet}
use orbitdb_relay.Media.{ExtractedMediaCid}
use orbitdb_relay.Service.{Service, PinTask, new_service}
use orbitdb_relay.Pinning.{
  enqueue_one, enqueue_all, enqueue_image_cids_for_pinning, take_task, start_pin, settle_pin,
  clear_pins, PinEvent, discovers, starts, pins, fails, begin_shutdown, begins_shutdown, stops,
  pin_step, pin_run,
}

-- How many outstanding tasks are for a CID.
abbrev pub tasks_for : Text → List PinTask → ℕ
tasks_for c [] = 0
tasks_for c (t ∷ ts) = (if text_eq t.cid c then 1 else 0) + tasks_for c ts

abbrev pub outstanding : Text → Service → ℕ
outstanding c s = tasks_for c s.pin_queue.waiting + tasks_for c s.pin_queue.running

-- At most one task is outstanding for a CID, and one only while it is queued; exactly one while it
-- is queued, until the service shuts down; a queued CID is not pinned.
pub record PinInv (s : Service) (c : Text) : Type 0 where
  pub single : outstanding c s ≤ (if TextSet.has c s.queued_image_cids then 1 else 0)
  pub exact :
      (outstanding c s ≡ (if TextSet.has c s.queued_image_cids then 1 else 0))
      ⊎ (s.is_shutting_down ≡ true)
  pub apart : (TextSet.has c s.queued_image_cids && TextSet.has c s.pinned_image_cids) ≡ false

tasks_for-append :
    (c : Text) (ts us : List PinTask) → tasks_for c (ts ++ us) ≡ tasks_for c ts + tasks_for c us
tasks_for-append c [] us = omega arith
tasks_for-append c (t ∷ ts) us = omega (arith, tasks_for-append c ts us)

enqueue_one-PinInv :
    (a : Text) (e : ExtractedMediaCid) (s : Service) (c : Text)
    → PinInv s c
    → PinInv (enqueue_one a e s) c
unfolding enqueue_one
enqueue_one-PinInv a (d, sources) s c v = ground (
  arith,
  TextSet.has-add c d s.queued_image_cids,
  text_eq_iff d c,
  tasks_for-append c s.pin_queue.waiting
      (record { cid = d; db_address = a; sources = sources } ∷ []),
)

take_task_lem :
    (c d : Text) (ts : List PinTask) (t : PinTask) (rest : List PinTask)
    → take_task d ts ≡ some (t, rest)
    → (tasks_for c ts ≡ (if text_eq d c then 1 else 0) + tasks_for c rest) × (t.cid ≡ d)
unfolding take_task
take_task_lem c d [] t rest e = cc
take_task_lem c d (u ∷ ts) t rest e = elim (Bool-cases (text_eq u.cid d)) [
  | inl hit ↦ ground (arith, text_eq_iff u.cid d)
  | inr miss ↦ elim (Option-cases (take_task d ts)) [
    | inl gone ↦ ground arith
    | inr ((found, others), deeper) ↦ ground (arith, take_task_lem c d ts found others deeper)
  ]
]

-- The same at any result, for the functions that branch on it.
start_pin-PinInv : (d : Text) (s : Service) (c : Text) → PinInv s c → PinInv (start_pin d s) c
unfolding start_pin
start_pin-PinInv d s c v = elim (Option-cases (take_task d s.pin_queue.waiting)) [
  | inl gone ↦ rw (gone, start_pin) v
  | inr ((t, rest), found) ↦
      let (count, same) = take_task_lem c d s.pin_queue.waiting t rest found in
      rw (found, start_pin)
        (record {
          single = ground (arith, count, same);
          exact = ground (arith, count, same);
          apart = v.apart;
        })
]

settle_pin-PinInv :
    (ok : Bool) (d : Text) (s : Service) (c : Text) → PinInv s c → PinInv (settle_pin ok d s) c
unfolding settle_pin
settle_pin-PinInv ok d s c v = elim (Option-cases (take_task d s.pin_queue.running)) [
  | inl gone ↦ rw (gone, settle_pin) v
  | inr ((t, rest), found) ↦
      let (count, same) = take_task_lem c d s.pin_queue.running t rest found in
      rw (found, settle_pin, same)
        (ground (
          arith,
          count,
          TextSet.has-delete c d s.queued_image_cids,
          TextSet.has-add c d s.pinned_image_cids,
        ))
]

enqueue_all-PinInv :
    (a : Text) (es : List ExtractedMediaCid) (s : Service) (c : Text)
    → PinInv s c
    → PinInv (enqueue_all a es s) c
unfolding enqueue_all
enqueue_all-PinInv a [] s c v = v
enqueue_all-PinInv a (e ∷ es) s c v =
    enqueue_all-PinInv a es (enqueue_one a e s) c (enqueue_one-PinInv a e s c v)

pin_step-PinInv :
    (has_pins : Bool) (e : PinEvent) (s : Service) (c : Text)
    → PinInv s c
    → PinInv (pin_step has_pins e s) c
unfolding pin_step begin_shutdown clear_pins enqueue_image_cids_for_pinning
pin_step-PinInv has_pins (discovers es a) s c v = ground (arith, enqueue_all-PinInv a es s c v)
pin_step-PinInv has_pins (starts d) s c v = start_pin-PinInv d s c v
pin_step-PinInv has_pins (pins d) s c v = settle_pin-PinInv true d s c v
pin_step-PinInv has_pins (fails d) s c v = settle_pin-PinInv false d s c v
pin_step-PinInv has_pins begins_shutdown s c v = ground arith
pin_step-PinInv has_pins stops s c v = ground arith

run-PinInv :
    (has_pins : Bool) (es : List PinEvent) (s : Service) (c : Text)
    → PinInv s c
    → PinInv (pin_run has_pins es s) c
unfolding pin_run
run-PinInv has_pins [] s c v = v
run-PinInv has_pins (e ∷ es) s c v =
    run-PinInv has_pins es (pin_step has_pins e s) c (pin_step-PinInv has_pins e s c v)

-- However discoveries, starts, successes, failures and the shutdown follow one another from a new
-- service, a CID has at most one outstanding task, and none unless it is queued; until the service
-- shuts down it has exactly one while it is queued; and a CID that is pinned is not queued.
pub pin_run-PinInv :
    (has_pins : Bool) (es : List PinEvent) (c : Text) → PinInv (pin_run has_pins es new_service) c
unfolding TextSet.has
pin_run-PinInv has_pins es c = run-PinInv has_pins es new_service c (ground arith)

enqueue_one_kept :
    (a : Text) (e : ExtractedMediaCid) (s : Service) (c : Text)
    → (TextSet.has c s.pinned_image_cids || TextSet.has c s.queued_image_cids) ≡ true
    → (TextSet.has c (enqueue_one a e s).pinned_image_cids
        || TextSet.has c (enqueue_one a e s).queued_image_cids)
      ≡ true
unfolding enqueue_one
enqueue_one_kept a (d, sources) s c h = ground (arith, TextSet.has-add c d s.queued_image_cids)

enqueue_all_kept :
    (a : Text) (es : List ExtractedMediaCid) (s : Service) (c : Text)
    → (TextSet.has c s.pinned_image_cids || TextSet.has c s.queued_image_cids) ≡ true
    → (TextSet.has c (enqueue_all a es s).pinned_image_cids
        || TextSet.has c (enqueue_all a es s).queued_image_cids)
      ≡ true
unfolding enqueue_all
enqueue_all_kept a [] s c h = h
enqueue_all_kept a (e ∷ es) s c h = enqueue_all_kept a es _ c (enqueue_one_kept a e s c h)

enqueue_all_covers :
    (a : Text) (es : List ExtractedMediaCid) (s : Service) (c : Text)
    → TextSet.has c (Map.keys es) ≡ true
    → (TextSet.has c (enqueue_all a es s).pinned_image_cids
        || TextSet.has c (enqueue_all a es s).queued_image_cids)
      ≡ true
unfolding enqueue_all TextSet.has enqueue_one
enqueue_all_covers a [] s c h = cc
enqueue_all_covers a ((d, sources) ∷ es) s c h = ground (
  arith,
  enqueue_all_covers a es (enqueue_one a (d, sources) s) c,
  enqueue_all_kept a es (enqueue_one a (d, sources) s) c,
  TextSet.has-add c d s.queued_image_cids,
  text_eq_iff d c,
)

enqueue_all_shutting_down :
    (a : Text) (es : List ExtractedMediaCid) (s : Service)
    → (enqueue_all a es s).is_shutting_down ≡ s.is_shutting_down
unfolding enqueue_all enqueue_one
enqueue_all_shutting_down a [] s = refl
enqueue_all_shutting_down a ((d, sources) ∷ es) s =
    ground (arith, enqueue_all_shutting_down a es (enqueue_one a (d, sources) s))

pub accounted :
    (entries : List ExtractedMediaCid) (a c : Text) (s : Service)
    → PinInv s c
    → s.is_shutting_down ≡ false
    → TextSet.has c (Map.keys entries) ≡ true
    → (TextSet.has c (enqueue_image_cids_for_pinning true entries a s).pinned_image_cids ≡ true)
      ⊎ (outstanding c (enqueue_image_cids_for_pinning true entries a s) ≡ 1)
unfolding enqueue_image_cids_for_pinning
accounted entries a c s v up listed =
    let v' = enqueue_all-PinInv a entries s c v in
    rw (up, enqueue_image_cids_for_pinning)
      (ground (
        arith,
        v'.exact,
        enqueue_all_covers a entries s c listed,
        enqueue_all_shutting_down a entries s,
      ))

-- Discovery loses no CID: at any moment before the shutdown, when the CIDs of a batch are handed
-- over and the node has a pin interface, each of them is then pinned, or queued with exactly one
-- task outstanding for it.
pub discovered-accounted :
    (events : List PinEvent) (entries : List ExtractedMediaCid) (a c : Text)
    → (pin_run true events new_service).is_shutting_down ≡ false
    → TextSet.has c (Map.keys entries) ≡ true
    → let s = enqueue_image_cids_for_pinning true entries a (pin_run true events new_service) in
      (TextSet.has c s.pinned_image_cids ≡ true) ⊎ (outstanding c s ≡ 1)
discovered-accounted events entries a c up listed =
    accounted entries a c (pin_run true events new_service) (pin_run-PinInv true events c) up listed
