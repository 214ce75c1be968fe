-- ===== src/Retention/Laws.antt =====
-- Theorems about the use counts and the opens in flight of src/services/database.ts.
use orbitdb_relay.Prelude.{
  ℕ, ◌+◌, ◌-◌, Text, text_eq, text_eq_iff, text_eq_refl, true, false, Option, none, some, List, [],
  ◌∷◌, ◌++◌, ◌&&◌, ◌≡◌, ◌↔◌, refl, arith, if◌then◌else◌, get_or, Option-cases, Bool-cases, inl, inr,
  ap, sym, ◌∙◌,
}
use orbitdb_relay.Prelude.Map
use orbitdb_relay.Service.{Service, Db, InFlight, new_service}
use orbitdb_relay.Retention.{
  Pending, Holder, open_database, is_in_flight, settle_open, count_use, release_open_database,
  World, start_retain, resume_retain, release, Step, starts, resumes, releases, Reach, here, next,
}

abbrev pub holders_at : Text → List Holder → ℕ
holders_at a [] = 0
holders_at a (h ∷ hs) = (if text_eq h.address a then 1 else 0) + holders_at a hs

-- The promises of the `orbitdb.open()` calls in progress for an address.
abbrev pub opening_at : Text → List Pending → List ℕ
opening_at a [] = []
opening_at a (p ∷ ps) =
    if p.owner && text_eq p.address a then p.promise ∷ opening_at a ps else opening_at a ps

abbrev pub promise_of : Option InFlight → List ℕ
promise_of none = []
promise_of (some e) = e.promise ∷ []

pub record Inv (a : Text) (w : World) : Type 0 where
  pub counted : get_or (Map.get a w.service.database_use_counts) 0 ≡ holders_at a w.holders
  pub opening : opening_at a w.pending ≡ promise_of (Map.get a w.service.open_in_flight)

holders_at-append :
    (a : Text) (hs ks : List Holder) → holders_at a (hs ++ ks) ≡ holders_at a hs + holders_at a ks
holders_at-append a [] ks = omega arith
holders_at-append a (h ∷ hs) ks = omega (arith, holders_at-append a hs ks)

opening_at-append :
    (a : Text) (hs ks : List Pending) → opening_at a (hs ++ ks) ≡ opening_at a hs ++ opening_at a ks
opening_at-append a [] ks = refl
opening_at-append a (h ∷ hs) ks = ground (arith, opening_at-append a hs ks)

start_retain-Inv : (a b : Text) (now : ℕ) (w : World) → Inv a w → Inv a (start_retain b now w)
unfolding start_retain
start_retain-Inv a b now w v = elim (Option-cases (Map.get b w.service.open_in_flight)) [
  | inl idle ↦
      let flight : InFlight = record { promise = w.next_promise; started_at = now } in
      rw (idle, start_retain, open_database)
        (record {
          counted = v.counted;
          opening =
              ground (
                arith,
                v.opening,
                Map.get-set a b flight w.service.open_in_flight,
                text_eq_iff b a,
              );
        })
  | inr (e, busy) ↦
      rw (busy, start_retain, open_database) (record { counted = v.counted; opening = v.opening })
]

single_split : (xs ys : List ℕ) (x y : ℕ) → xs ++ x ∷ ys ≡ y ∷ [] → (xs ≡ []) × (ys ≡ []) × (x ≡ y)
single_split [] ys x y e = ground arith
single_split (z ∷ []) ys x y e = absurd (ground arith)
single_split (z ∷ z' ∷ xs) ys x y e = absurd (ground arith)

not_empty_split : (xs ys : List ℕ) (x : ℕ) → xs ++ x ∷ ys ≡ [] → ⊥
not_empty_split [] ys x e = ground arith
not_empty_split (z ∷ xs) ys x e = ground arith

opening_split :
    (a : Text) (before after : List Pending) (p : Pending)
    → p.owner ≡ true
    → p.address ≡ a
    → opening_at a (before ++ p ∷ after) ≡ opening_at a before ++ p.promise ∷ opening_at a after
opening_split a before after p o at =
    opening_at-append a before (p ∷ after)
    ∙ ap (◌++◌ (opening_at a before)) (ground (arith, text_eq_iff p.address a))

opening_skip :
    (a : Text) (before after : List Pending) (p : Pending)
    → (p.owner && text_eq p.address a) ≡ false
    → opening_at a (before ++ p ∷ after) ≡ opening_at a (before ++ after)
opening_skip a before after p o =
    opening_at-append a before (p ∷ after)
    ∙ ap (◌++◌ (opening_at a before)) (rw o refl)
    ∙ sym (opening_at-append a before after)

-- The owner's part of an open, in the case that the address is the one in question.
settle_owner :
    (a : Text) (before after : List Pending) (p : Pending) (flight : Option InFlight)
    → opening_at a before ++ p.promise ∷ opening_at a after ≡ promise_of flight
    → (is_in_flight flight p.promise ≡ true) × (opening_at a (before ++ after) ≡ [])
settle_owner a before after p none e =
    absurd (not_empty_split (opening_at a before) (opening_at a after) p.promise e)
settle_owner a before after p (some f) e =
    let (left, right, same) =
      single_split (opening_at a before) (opening_at a after) p.promise f.promise e in
    (ground (arith, same), opening_at-append a before after ∙ rw (left, right) refl)

settle_open-opening :
    (a : Text) (before after : List Pending) (p : Pending) (s : Service)
    → opening_at a (before ++ p ∷ after) ≡ promise_of (Map.get a s.open_in_flight)
    → opening_at a (before ++ after) ≡ promise_of (Map.get a (settle_open p s).open_in_flight)
unfolding settle_open
settle_open-opening a before after p s e = elim (Bool-cases (p.owner && text_eq p.address a)) [
  | inl own ↦
      let o : p.owner ≡ true = ground arith in
      let at : p.address ≡ a = ground (arith, text_eq_iff p.address a) in
      let (match, gone) =
        settle_owner a before after p (Map.get a s.open_in_flight)
          (sym (opening_split a before after p o at) ∙ e) in
      let here_too : is_in_flight (Map.get p.address s.open_in_flight) p.promise ≡ true =
        rw at match in
      gone ∙ ground (arith, Map.get-delete a p.address s.open_in_flight, text_eq_iff p.address a)
  | inr other ↦
      sym (opening_skip a before after p other)
      ∙ e
      ∙ ground (arith, Map.get-delete a p.address s.open_in_flight)
]

settle_open_counts :
    (p : Pending) (s : Service) → (settle_open p s).database_use_counts ≡ s.database_use_counts
unfolding settle_open
settle_open_counts p s = ground arith

resume_retain-Inv :
    (a : Text) (opened : Option Db) (before after : List Pending) (p : Pending) (w : World)
    → w.pending ≡ before ++ p ∷ after
    → Inv a w
    → Inv a (resume_retain opened p (before ++ after) w)
unfolding resume_retain count_use
resume_retain-Inv a none before after p w e v = record {
  counted = rw (settle_open_counts p w.service) v.counted;
  opening = settle_open-opening a before after p w.service (rw e at v.opening);
}
resume_retain-Inv a (some db) before after p w e v =
    let s = settle_open p w.service in
    let used = get_or (Map.get p.address s.database_use_counts) 0 + 1 in
    record {
      counted = ground (
        arith,
        v.counted,
        settle_open_counts p w.service,
        Map.get-set a p.address used s.database_use_counts,
        text_eq_iff p.address a,
      );
      opening = settle_open-opening a before after p w.service (rw e at v.opening);
    }

holders_split :
    (a : Text) (before after : List Holder) (h : Holder)
    → holders_at a (before ++ h ∷ after)
      ≡ (if text_eq h.address a then 1 else 0) + holders_at a (before ++ after)
holders_split a before after h =
    omega (arith, holders_at-append a before (h ∷ after), holders_at-append a before after)

release-Inv :
    (a : Text) (before after : List Holder) (h : Holder) (w : World)
    → w.holders ≡ before ++ h ∷ after
    → Inv a w
    → Inv a (release h (before ++ after) w)
unfolding release
release-Inv a before after h w e v =
    let counts = w.service.database_use_counts in
    let current = get_or (Map.get h.address counts) 0 in
    let total : get_or (Map.get a counts) 0
        ≡ (if text_eq h.address a then 1 else 0) + holders_at a (before ++ after) =
      v.counted ∙ ap (holders_at a) e ∙ holders_split a before after h in
    ground (
      arith,
      total,
      v.opening,
      Map.get-set a h.address (current - 1) counts,
      Map.get-delete a h.address counts,
      text_eq_iff h.address a,
    )

Step-Inv : {opens : ℕ → Option Db} {w u : World} (a : Text) → Step opens w u → Inv a w → Inv a u
Step-Inv a (starts w b now) v = start_retain-Inv a b now w v
Step-Inv {opens} a (resumes w before after call e) v =
    resume_retain-Inv a (opens call.promise) before after call w e v
Step-Inv a (releases w before after h e) v = release-Inv a before after h w e v

abbrev pub idle_world : World
idle_world = record {
  service = new_service;
  next_promise = 0;
  pending = [];
  holders = [];
  closed = [];
}

idle_world-Inv : (a : Text) → Inv a idle_world
unfolding Map.get
idle_world-Inv a = record { counted = refl; opening = refl }

-- Whatever calls of `retainOpenDatabase` and `releaseOpenDatabase` are made, and however their
-- parts interleave and their opens end, the use count of an address is the number of callers that
-- hold it, and an `orbitdb.open()` of it is in progress exactly as the in-flight record says: one
-- at most.
pub Reach-Inv : (opens : ℕ → Option Db) (a : Text) {w : World} → Reach opens idle_world w → Inv a w
Reach-Inv opens a here = idle_world-Inv a
Reach-Inv opens a (next r st) = Step-Inv a st (Reach-Inv opens a r)

-- In every reachable state a release closes the database exactly when the caller that releases it
-- is the last that holds its address.
pub release-closes_iff :
    (opens : ℕ → Option Db) {w : World} (before after : List Holder) (h : Holder)
    → Reach opens idle_world w
    → w.holders ≡ before ++ h ∷ after
    → ((release_open_database h.address h.db w.service).0 ≡ some h.db)
      ↔ (holders_at h.address (before ++ after) ≡ 0)
unfolding release_open_database
release-closes_iff opens {w} before after h r e =
    let total : get_or (Map.get h.address w.service.database_use_counts) 0
        ≡ (if text_eq h.address h.address then 1 else 0) + holders_at h.address (before ++ after) =
      (Reach-Inv opens h.address r).counted
      ∙ ap (holders_at h.address) e
      ∙ holders_split h.address before after h in
    (
      (λ closes. ground (arith, total, text_eq_refl h.address, closes)),
      (λ last. ground (arith, total, text_eq_refl h.address, last)),
    )
