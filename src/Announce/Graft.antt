-- ===== src/Announce/Graft.antt =====
-- The certificate hashes grafted onto the announced addresses of src/config/announce-addresses.ts.
use mathlib.Core.Path.{subst}
use orbitdb_relay.Prelude.{
  ◌+◌, Text, codes, starts_with, includes, cut_at, slice_from, length, Bool, true, false, none,
  some, List, [], ◌∷◌, ◌++◌, ◌||◌, All, ◌≡◌, refl, ap, ◌∙◌, arith, inl, inr, ◌⊎◌, Bool-cases,
  Option-cases, includes_front, includes-append, includes_middle, is_some-cut_at, cut_at_lem,
  append-slice_from,
}
use orbitdb_relay.Announce.{cut_peer, suffix_for, transport_of, graft}

-- What browsers dial.
abbrev pub is_browser_address : Text → Bool
is_browser_address addr =
    includes addr (codes "/webrtc-direct") || includes addr (codes "/webtransport")

abbrev pub has_certhash : Text → Bool
has_certhash addr = includes addr (codes "/certhash/")

-- A hash stands behind each /certhash/.
abbrev pub IsHashed : Text → Type 0
IsHashed addr = includes addr (codes "/certhash/p2p/") ≡ false

pub transport-cases :
    (addr transport : Text)
    → transport_of addr ≡ some transport
    → (includes addr (codes "/" ++ transport) ≡ true) × (is_browser_address addr ≡ true)
unfolding transport_of
transport-cases addr transport h = ground arith

pub transport-known :
    (addr transport : Text)
    → transport_of addr ≡ some transport
    → (transport ≡ codes "webrtc-direct") ⊎ (transport ≡ codes "webtransport")
unfolding transport_of
transport-known addr transport h = ground arith

pub transport-none : (addr : Text) → transport_of addr ≡ none → is_browser_address addr ≡ false
unfolding transport_of
transport-none addr h = ground arith

graft-cut :
    (transport suffix addr : Text)
    → includes addr (codes "/" ++ transport) ≡ true
    → (before rest : Text) × (graft transport suffix addr
        ≡ before ++ ((codes "/" ++ transport) ++ (codes "/" ++ (suffix ++ rest))))
unfolding graft
graft-cut transport suffix addr h = elim (Option-cases (cut_at (codes "/" ++ transport) addr)) [
  | inl absent ↦ cc (rw (← is_some-cut_at (codes "/" ++ transport) addr, absent) at h)
  | inr ((before, at), found) ↦
      (before, slice_from at (length (codes "/" ++ transport)), rw (found, graft) refl)
]

pub graft-includes :
    (transport suffix addr : Text)
    → includes addr (codes "/" ++ transport) ≡ true
    → includes (graft transport suffix addr) (codes "/" ++ transport) ≡ true
graft-includes transport suffix addr h =
    let (before, rest, same) = graft-cut transport suffix addr h in
    rw same (includes_middle before (codes "/" ++ transport) (codes "/" ++ (suffix ++ rest)))

pub graft-has_certhash :
    (transport s addr : Text)
    → includes addr (codes "/" ++ transport) ≡ true
    → has_certhash (graft transport (codes "certhash/" ++ s) addr) ≡ true
graft-has_certhash transport s addr h =
    let (before, rest, same) = graft-cut transport (codes "certhash/" ++ s) addr h in
    rw same (
      includes-append before _ _ (
        includes-append (codes "/" ++ transport) _ _
          (includes_middle [] (codes "/certhash/") (s ++ rest))))

-- A suffix that begins a certificate hash.
abbrev pub IsHash : Text → Type 0
IsHash suffix = (s : Text) × (suffix ≡ codes "certhash/" ++ s)

-- It keeps its beginning when the peer is cut off.
cut_peer-IsHash :
    (r : Text)
    → starts_with (codes "/" ++ r) (codes "/p2p/") ≡ false
    → IsHash (cut_peer (codes "certhash/" ++ r))
unfolding cut_at starts_with
cut_peer-IsHash r h = elim (Option-cases (cut_at (codes "/p2p/") r)) [
  | inl absent ↦ (r, rw (h, absent) refl)
  | inr ((b, peer), found) ↦ (b, rw (h, found) refl)
]

not_peer :
    (before front r addr : Text)
    → IsHashed addr
    → before ++ (front ++ (codes "/certhash/" ++ r)) ≡ addr
    → starts_with (codes "/" ++ r) (codes "/p2p/") ≡ false
unfolding starts_with
not_peer before front r addr hashed same =
    elim (Bool-cases (starts_with (codes "/" ++ r) (codes "/p2p/"))) [
      | inr other ↦ other
      | inl peer ↦
          let found : includes (before ++ (front ++ (codes "/certhash/" ++ r)))
                (codes "/certhash/p2p/")
              ≡ true =
            includes-append before _ _ (
              includes-append front _ _
                (includes_front (codes "/certhash/" ++ r) (codes "/certhash/p2p/") peer)) in
          cc (rw same at found)
    ]

module _ (before at addr : Text) (hashed : IsHashed addr) (same : before ++ at ≡ addr) where
  direct-IsHash :
      starts_with at (codes "/webrtc-direct/certhash/") ≡ true
      → IsHash (cut_peer (slice_from at 15))
  direct-IsHash front =
      let r = slice_from at 24 in
      let e = append-slice_from at (codes "/webrtc-direct/certhash/") front in
      let plain =
        not_peer before (codes "/webrtc-direct") r addr hashed (ap (λ x. before ++ x) e ∙ same) in
      subst (λ x. IsHash (cut_peer (slice_from x 15))) e (cut_peer-IsHash r plain)

  web-IsHash :
      starts_with at (codes "/webtransport/certhash/") ≡ true → IsHash (cut_peer (slice_from at 14))
  web-IsHash front =
      let r = slice_from at 23 in
      let e = append-slice_from at (codes "/webtransport/certhash/") front in
      let plain =
        not_peer before (codes "/webtransport") r addr hashed (ap (λ x. before ++ x) e ∙ same) in
      subst (λ x. IsHash (cut_peer (slice_from x 14))) e (cut_peer-IsHash r plain)

abbrev pub IsTransport : Text → Type 0
IsTransport transport = (transport ≡ codes "webrtc-direct") ⊎ (transport ≡ codes "webtransport")

cut_peer-known :
    (transport before at addr : Text)
    → IsTransport transport
    → IsHashed addr
    → before ++ at ≡ addr
    → starts_with at (codes "/" ++ transport ++ codes "/certhash/") ≡ true
    → IsHash (cut_peer (slice_from at (length transport + 2)))
cut_peer-known transport before at addr (inl direct) hashed same front =
    rw direct (direct-IsHash before at addr hashed same (rw direct at front))
cut_peer-known transport before at addr (inr web) hashed same front =
    rw web (web-IsHash before at addr hashed same (rw web at front))

pub suffix_for-IsHash :
    (donors : List Text) (transport suffix : Text)
    → IsTransport transport
    → All IsHashed donors
    → suffix_for donors transport ≡ some suffix
    → IsHash suffix
unfolding suffix_for
suffix_for-IsHash [] transport suffix known hashed h = cc
suffix_for-IsHash (addr ∷ donors) transport suffix known (hashed, rest) h =
    elim (Option-cases (cut_at (codes "/" ++ transport ++ codes "/certhash/") addr)) [
      | inl absent ↦
          suffix_for-IsHash donors transport suffix known rest (rw (absent, suffix_for) at h)
      | inr ((before, at), found) ↦
          let (same, front) =
            cut_at_lem (codes "/" ++ transport ++ codes "/certhash/") addr before at found in
          let e : cut_peer (slice_from at (length transport + 2)) ≡ suffix =
            cc (rw (found, suffix_for) at h) in
          subst IsHash e (cut_peer-known transport before at addr known hashed same front)
    ]

pub browser_of :
    (transport addr : Text)
    → IsTransport transport
    → includes addr (codes "/" ++ transport) ≡ true
    → is_browser_address addr ≡ true
browser_of transport addr (inl direct) h = let h' = rw direct at h in ground arith
browser_of transport addr (inr web) h = let h' = rw web at h in ground arith
