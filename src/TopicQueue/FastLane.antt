-- ===== src/TopicQueue/FastLane.antt =====
-- Theorems about the fast lane of src/services/orbitdb-replication-service.ts.
use orbitdb_relay.Prelude.{
  ℕ, ◌≤◌, Text, text_eq, text_eq_iff, starts_with, Bool, true, false, Option, none, some, List, [],
  ◌∷◌, ◌||◌, not, if◌then◌else◌, ◌≡◌, refl, ◌∙◌, arith, inl, inr, Option-cases, Bool-cases,
}
use orbitdb_relay.Prelude.Map
use orbitdb_relay.Prelude.Map.{Map}
use orbitdb_relay.Addresses.{orbitdb_prefix}
use orbitdb_relay.Service.{Tasks}
use orbitdb_relay.TopicQueue.{
  new_queue, Config, Queue, LaneEntry, LaneState, pending, held, failed,
  fetch_manifest_chain_on_first_sight, end_fetch, start_fetch, take_topic, settle_entry, is_known,
  is_known_topic, next_entry,
}
use orbitdb_relay.TopicQueue.Handlers.{cleanup, Event, run}
use orbitdb_relay.TopicQueue.Accounting.{outstanding, take_topic_lem, count-append}
use orbitdb_relay.TopicQueue.Invariant.{new_relay}
use orbitdb_relay.TopicQueue.LaneRuns.{run-OnLane, OnLane}

abbrev pub is_pending : LaneState → Bool
is_pending pending = true
is_pending held = false
is_pending failed = false

-- The fetches that the record of a topic allows to be under way.
abbrev pub fetches : Option LaneEntry → ℕ
fetches none = 0
fetches (some entry) = if is_pending entry.state then 1 else 0

abbrev pub AtMostOne : Text → Tasks Text → Map LaneEntry → Type 0
AtMostOne t tasks topics = outstanding t tasks ≤ fetches (Map.get t topics)

next_entry-fetches :
    (known : Option LaneEntry) (now : ℕ) → fetches (some (next_entry known now)) ≡ 1
unfolding next_entry
next_entry-fetches none now = refl
next_entry-fetches (some known) now = refl

free_unless_known :
    (config : Config) (now : ℕ) (known : Option LaneEntry)
    → is_known config now known ≡ false
    → fetches known ≡ 0
unfolding is_known is_known_topic
free_unless_known config now none e = refl
free_unless_known config now (some known) e = ground arith

fetch-AtMostOne :
    (t : Text) (config : Config) (d : Text) (now : ℕ) (q : Queue)
    → OnLane (AtMostOne t) q
    → OnLane (AtMostOne t) (fetch_manifest_chain_on_first_sight config d now q)
unfolding fetch_manifest_chain_on_first_sight
fetch-AtMostOne t config d now q p =
    let known = Map.get d q.fast_lane_topics in
    elim (Bool-cases (not (starts_with d orbitdb_prefix) || is_known config now known)) [
      | inl skip ↦ rw (skip, fetch_manifest_chain_on_first_sight) p
      | inr go ↦
          rw (go, fetch_manifest_chain_on_first_sight)
            (ground (
              arith,
              p,
              go,
              Map.get-set t d (next_entry known now) q.fast_lane_topics,
              next_entry-fetches known now,
              free_unless_known config now known,
              text_eq_iff d t,
              count-append t q.fast_lane_queue.waiting (d ∷ []),
            ))
    ]

start-AtMostOne :
    (t d : Text) (q : Queue) → OnLane (AtMostOne t) q → OnLane (AtMostOne t) (start_fetch d q)
unfolding start_fetch
start-AtMostOne t d q p = elim (Option-cases (take_topic d q.fast_lane_queue.waiting)) [
  | inl gone ↦ rw (gone, start_fetch) p
  | inr (rest, found) ↦
      rw (found, start_fetch)
        (ground (arith, take_topic_lem t d q.fast_lane_queue.waiting rest found))
]

settle_entry-fetches :
    (s : LaneState) (t d : Text) (now : ℕ) (topics : Map LaneEntry)
    → is_pending s ≡ false
    → fetches (Map.get t (settle_entry s d now topics))
      ≡ (if text_eq d t then 0 else fetches (Map.get t topics))
unfolding settle_entry
settle_entry-fetches s t d now topics e = elim (Option-cases (Map.get d topics)) [
  | inl gone ↦ rw (gone, settle_entry) (ground (arith, gone, text_eq_iff d t))
  | inr (entry, found) ↦
      rw (found, settle_entry)
        (ground (
          arith,
          e,
          Map.get-set t d (record entry { state = s; settled_at = now }) topics,
          text_eq_iff d t,
        ))
]

settle_entry_other :
    (s : LaneState) (t d : Text) (now : ℕ) (topics : Map LaneEntry)
    → text_eq d t ≡ false
    → Map.get t (settle_entry s d now topics) ≡ Map.get t topics
unfolding settle_entry
settle_entry_other s t d now topics other = elim (Option-cases (Map.get d topics)) [
  | inl gone ↦ rw (gone, settle_entry) refl
  | inr (entry, found) ↦
      rw (found, settle_entry)
        (ground
          (arith, other, Map.get-set t d (record entry { state = s; settled_at = now }) topics))
]

held_is_free : (entry : LaneEntry) → entry.state ≡ held → fetches (some entry) ≡ 0
held_is_free entry e = rw e refl

settled : (ok : Bool) → is_pending (if ok then held else failed) ≡ false
settled true = refl
settled false = refl

end-AtMostOne :
    (t : Text) (ok : Bool) (d : Text) (now : ℕ) (q : Queue)
    → OnLane (AtMostOne t) q
    → OnLane (AtMostOne t) (end_fetch ok d now q)
unfolding end_fetch
end-AtMostOne t ok d now q p = elim (Option-cases (take_topic d q.fast_lane_queue.running)) [
  | inl gone ↦ rw (gone, end_fetch) p
  | inr (rest, found) ↦
      rw (found, end_fetch)
        (ground (
          arith,
          take_topic_lem t d q.fast_lane_queue.running rest found,
          settle_entry-fetches (if ok then held else failed) t d now q.fast_lane_topics
              (settled ok),
        ))
]

drop-AtMostOne : (t : Text) (q : Queue) → OnLane (AtMostOne t) q → OnLane (AtMostOne t) (cleanup q)
unfolding cleanup
drop-AtMostOne t q p = omega (arith, p)

new_queue-OnLane : (t : Text) → OnLane (AtMostOne t) new_queue
unfolding Map.get
new_queue-OnLane t = omega arith

-- Whatever happens to the relay, a topic has at most one fetch of its manifest chain waiting or
-- under way, and none unless its record is pending.
run_new-AtMostOne :
    (config : Config) (es : List Event) (t : Text)
    → OnLane (AtMostOne t) (run config es new_relay).queue
run_new-AtMostOne config es t =
    run-OnLane (AtMostOne t) (fetch-AtMostOne t) (start-AtMostOne t) (end-AtMostOne t)
      (drop-AtMostOne t) config es new_relay (new_queue-OnLane t)

abbrev pub IsFinal : Text → LaneEntry → Tasks Text → Map LaneEntry → Type 0
IsFinal t entry tasks topics = (Map.get t topics ≡ some entry) × (outstanding t tasks ≡ 0)

module _ (t : Text) (entry : LaneEntry) (is_held : entry.state ≡ held) where
  held-is_known : (config : Config) (now : ℕ) → is_known config now (some entry) ≡ true
  unfolding is_known is_known_topic
  held-is_known config now = rw is_held refl

  fetch-IsFinal :
      (config : Config) (d : Text) (now : ℕ) (q : Queue)
      → OnLane (IsFinal t entry) q
      → OnLane (IsFinal t entry) (fetch_manifest_chain_on_first_sight config d now q)
  unfolding fetch_manifest_chain_on_first_sight
  fetch-IsFinal config d now q (kept, free) =
      let known = Map.get d q.fast_lane_topics in
      elim (Bool-cases (not (starts_with d orbitdb_prefix) || is_known config now known)) [
        | inl skip ↦ rw (skip, fetch_manifest_chain_on_first_sight) (kept, free)
        | inr go ↦
            let other : text_eq d t ≡ false =
              ground (arith, go, kept, held-is_known config now, text_eq_iff d t) in
            rw (go, fetch_manifest_chain_on_first_sight)
              (
                ground
                    (arith, kept, other, Map.get-set t d (next_entry known now) q.fast_lane_topics),
                ground (arith, free, other, count-append t q.fast_lane_queue.waiting (d ∷ [])),
              )
      ]

  start-IsFinal :
      (d : Text) (q : Queue)
      → OnLane (IsFinal t entry) q
      → OnLane (IsFinal t entry) (start_fetch d q)
  unfolding start_fetch
  start-IsFinal d q (kept, free) = elim (Option-cases (take_topic d q.fast_lane_queue.waiting)) [
    | inl gone ↦ rw (gone, start_fetch) (kept, free)
    | inr (rest, found) ↦
        rw (found, start_fetch)
          (kept, ground (arith, free, take_topic_lem t d q.fast_lane_queue.waiting rest found))
  ]

  end-IsFinal :
      (ok : Bool) (d : Text) (now : ℕ) (q : Queue)
      → OnLane (IsFinal t entry) q
      → OnLane (IsFinal t entry) (end_fetch ok d now q)
  unfolding end_fetch
  end-IsFinal ok d now q (kept, free) =
      elim (Option-cases (take_topic d q.fast_lane_queue.running)) [
        | inl gone ↦ rw (gone, end_fetch) (kept, free)
        | inr (rest, found) ↦
            let taken = take_topic_lem t d q.fast_lane_queue.running rest found in
            let other : text_eq d t ≡ false = ground (arith, free, taken) in
            rw (found, end_fetch)
              (
                settle_entry_other (if ok then held else failed) t d now q.fast_lane_topics other
                    ∙ kept,
                ground (arith, free, taken),
              )
      ]

  drop-IsFinal : (q : Queue) → OnLane (IsFinal t entry) q → OnLane (IsFinal t entry) (cleanup q)
  unfolding cleanup
  drop-IsFinal q (kept, free) = (kept, omega (arith, free))

-- Once the fast lane of a relay holds the chain of a topic, its record stays as it is, and the
-- chain is never fetched again, whatever happens later.
pub held-IsFinal :
    (config : Config) (es later : List Event) (t : Text) (entry : LaneEntry)
    → Map.get t (run config es new_relay).queue.fast_lane_topics ≡ some entry
    → entry.state ≡ held
    → OnLane (IsFinal t entry) (run config later (run config es new_relay)).queue
held-IsFinal config es later t entry kept is_held =
    run-OnLane (IsFinal t entry) (fetch-IsFinal t entry is_held) (start-IsFinal t entry is_held)
      (end-IsFinal t entry is_held) (drop-IsFinal t entry is_held) config later
      (run config es new_relay)
      (kept, ground (arith, run_new-AtMostOne config es t, kept, held_is_free entry is_held))
