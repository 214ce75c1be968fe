-- ===== src/Announce/Laws.antt =====
-- Theorems about the announced addresses of src/config/announce-addresses.ts.
use orbitdb_relay.Prelude.{
  Text, text_eq, text_eq_iff, text_eq_sound, text_eq_refl, Bool, true, false, Option, none, some,
  List, [], ◌∷◌, ◌&&◌, ◌||◌, not, any, filter, All, if◌then◌else◌, ◌≡◌, refl, sym, ap, ◌∙◌, arith,
  inl, inr, Bool-cases, Option-cases,
}
use orbitdb_relay.Prelude.TextSet
use orbitdb_relay.Announce.{
  is_public_address, suffix_for, transport_of, graft, grafted, enriched, push_some, enrich_all,
  enrich_browser_transport_certhash, is_deployed_mode, or_all, keep_reachable,
  filter_announce_addresses,
}
use orbitdb_relay.Announce.Graft.{
  is_browser_address, has_certhash, IsHashed, IsHash, transport-cases, transport-known,
  transport-none, graft-includes, graft-has_certhash, suffix_for-IsHash, browser_of,
}

-- What `enriched` makes of an address.
abbrev IsEnriched : Text → Option Text → Type 0
IsEnriched addr none = is_browser_address addr ≡ true
IsEnriched addr (some r) =
    (is_browser_address r ≡ is_browser_address addr)
    × (is_browser_address addr ≡ false → r ≡ addr)
    × (is_browser_address addr ≡ true → has_certhash r ≡ true)

grafted-IsEnriched :
    (suffix : Option Text) (transport addr : Text)
    → transport_of addr ≡ some transport
    → ((s : Text) → suffix ≡ some s → IsHash s)
    → IsEnriched addr (grafted suffix transport addr)
grafted-IsEnriched none transport addr t h = (transport-cases addr transport t).1
grafted-IsEnriched (some []) transport addr t h = (transport-cases addr transport t).1
grafted-IsEnriched (some (c ∷ s)) transport addr t h =
    let (there, browser) = transport-cases addr transport t in
    let still =
      browser_of transport (graft transport (c ∷ s) addr) (transport-known addr transport t)
        (graft-includes transport (c ∷ s) addr there) in
    let (r, hash) = h (c ∷ s) refl in
    (still ∙ sym browser, λ plain. cc, λ _. rw hash (graft-has_certhash transport r addr there))

enriched-IsEnriched :
    (donors : List Text) (addr : Text)
    → All IsHashed donors
    → IsEnriched addr (enriched donors addr)
unfolding enriched
enriched-IsEnriched donors addr hashed = elim (Option-cases (transport_of addr)) [
  | inl plain ↦ rw (plain, enriched) (refl, λ _. refl, λ b. cc (transport-none addr plain, b))
  | inr (transport, t) ↦ elim (Bool-cases (has_certhash addr)) [
    | inl there ↦ rw (t, enriched, there) (refl, λ _. refl, λ _. there)
    | inr bare ↦
        rw (t, enriched, bare)
          (grafted-IsEnriched (suffix_for donors transport) transport addr t
            (λ s. suffix_for-IsHash donors transport s (transport-known addr transport t) hashed))
  ]
]

-- A browser address has its certificate hash.
abbrev pub IsComplete : Text → Type 0
IsComplete addr = is_browser_address addr ≡ true → has_certhash addr ≡ true

All-push_some :
    (addr : Text) (o : Option Text) (addrs : List Text)
    → IsEnriched addr o
    → All IsComplete addrs
    → All IsComplete (push_some o addrs)
All-push_some addr none addrs h rest = rest
All-push_some addr (some r) addrs (browser, plain, complete) rest =
    (λ b. complete (sym browser ∙ b), rest)

has-push_some :
    (x addr : Text) (o : Option Text) (addrs : List Text)
    → is_browser_address x ≡ false
    → IsEnriched addr o
    → TextSet.has x (push_some o addrs) ≡ (text_eq addr x || TextSet.has x addrs)
unfolding TextSet.has
has-push_some x addr none addrs h browser = ground (arith, text_eq_iff addr x)
has-push_some x addr (some r) addrs h (browser, plain, complete) =
    elim (Bool-cases (is_browser_address addr)) [
      | inl b ↦ ground (arith, text_eq_iff addr x, text_eq_iff r x)
      | inr p ↦ rw (plain p) refl
    ]

enrich_all-All :
    (donors addrs : List Text) → All IsHashed donors → All IsComplete (enrich_all donors addrs)
unfolding enrich_all
enrich_all-All donors [] hashed = tt
enrich_all-All donors (addr ∷ addrs) hashed =
    All-push_some addr (enriched donors addr) (enrich_all donors addrs)
      (enriched-IsEnriched donors addr hashed) (enrich_all-All donors addrs hashed)

has-enrich_all :
    (x : Text) (donors addrs : List Text)
    → is_browser_address x ≡ false
    → All IsHashed donors
    → TextSet.has x (enrich_all donors addrs) ≡ TextSet.has x addrs
unfolding enrich_all TextSet.has
has-enrich_all x donors [] plain hashed = refl
has-enrich_all x donors (addr ∷ addrs) plain hashed =
    rw
      (
        has-push_some x addr (enriched donors addr) (enrich_all donors addrs) plain
            (enriched-IsEnriched donors addr hashed),
        has-enrich_all x donors addrs plain hashed,
      )
      refl

has-filter :
    (x : Text) (p : Text → Bool) (addrs : List Text)
    → TextSet.has x (filter p addrs) ≡ (TextSet.has x addrs && p x)
unfolding TextSet.has
has-filter x p [] = refl
has-filter x p (addr ∷ addrs) = elim (Bool-cases (text_eq addr x)) [
  | inr other ↦ ground (arith, has-filter x p addrs)
  | inl same ↦ rw (text_eq_sound addr x same) (ground (arith, has-filter x p addrs, text_eq_refl x))
]

All-filter {ℓ} :
    (P : Text → Type ℓ) (p : Text → Bool) (addrs : List Text) → All P addrs → All P (filter p addrs)
All-filter P p [] h = tt
All-filter P p (addr ∷ addrs) (h, rest) = elim (Bool-cases (p addr)) [
  | inl kept ↦ rw kept (h, All-filter P p addrs rest)
  | inr dropped ↦ rw dropped (All-filter P p addrs rest)
]

or_all-filter :
    (p : Text → Bool) (addrs all_of_them : List Text)
    → or_all (filter p addrs) all_of_them ≡ (if any p addrs then filter p addrs else all_of_them)
or_all-filter p [] all_of_them = refl
or_all-filter p (addr ∷ addrs) all_of_them = elim (Bool-cases (p addr)) [
  | inl kept ↦ rw kept refl
  | inr dropped ↦ rw dropped (or_all-filter p addrs all_of_them)
]

All-keep_reachable :
    (deployed : Bool) (addrs : List Text)
    → All IsComplete addrs
    → All IsComplete (keep_reachable deployed addrs)
unfolding keep_reachable
All-keep_reachable false addrs h = h
All-keep_reachable true addrs h =
    rw (or_all-filter is_public_address addrs addrs)
      (elim (any is_public_address addrs)
        as (λ b. All IsComplete (if b then filter is_public_address addrs else addrs)) [
          | true ↦ All-filter IsComplete is_public_address addrs h
          | false ↦ h
        ])

has-keep_reachable :
    (x : Text) (deployed : Bool) (addrs : List Text)
    → TextSet.has x (keep_reachable deployed addrs) ≡ (
        TextSet.has x addrs
        && (not deployed || is_public_address x || not (any is_public_address addrs)))
unfolding keep_reachable
has-keep_reachable x false addrs = ground arith
has-keep_reachable x true addrs =
    ground
      (arith, or_all-filter is_public_address addrs addrs, has-filter x is_public_address addrs)

-- Every address announced for browsers carries a certificate hash, wherever the relay runs, if no
-- listener address has a /certhash/ with no hash behind it.
pub filter_announce-IsComplete :
    (env : Text → Option Text) (addrs : List Text)
    → All IsHashed addrs
    → All IsComplete (filter_announce_addresses env addrs)
unfolding filter_announce_addresses enrich_browser_transport_certhash
filter_announce-IsComplete env addrs hashed =
    All-keep_reachable (is_deployed_mode env) (enrich_browser_transport_certhash addrs)
      (enrich_all-All addrs addrs hashed)

-- Whether an address is announced that is not for browsers, if no listener address has a /certhash/
-- with no hash behind it: on a relay that is not deployed, exactly if it is given; on a deployed
-- one, exactly if it is given and either is public or no public one is left.
pub has-filter_announce :
    (env : Text → Option Text) (addrs : List Text) (x : Text)
    → All IsHashed addrs
    → is_browser_address x ≡ false
    → TextSet.has x (filter_announce_addresses env addrs) ≡ (
        TextSet.has x addrs
        && (not (is_deployed_mode env)
            || is_public_address x
            || not (any is_public_address (enrich_browser_transport_certhash addrs))))
unfolding filter_announce_addresses enrich_browser_transport_certhash
has-filter_announce env addrs x hashed plain =
    has-keep_reachable x (is_deployed_mode env) (enrich_browser_transport_certhash addrs)
    ∙ ap
        (λ given.
          given
          && (not (is_deployed_mode env)
              || is_public_address x
              || not (any is_public_address (enrich_browser_transport_certhash addrs))))
        (has-enrich_all x addrs addrs plain hashed)
