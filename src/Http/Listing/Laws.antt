-- ===== src/Http/Listing/Laws.antt =====
-- Theorems about the addresses that /multiaddrs of src/http/pinning-http.ts lists.
use orbitdb_relay.Prelude.{
  Text, text_eq, Bool, true, Option, List, [], ◌∷◌, ◌||◌, not, ◌≡◌, refl, arith,
}
use orbitdb_relay.Prelude.TextSet
use orbitdb_relay.Announce.{is_public_address, filter_announce_addresses}
use orbitdb_relay.Http.Listing.{put, prioritize_addresses, listed_addresses}

-- No address that can be reached stands directly behind one that cannot, and so none behind any.
abbrev pub IsPublicFirst : List Text → Type 0
IsPublicFirst [] = Unit
IsPublicFirst (a ∷ []) = Unit
IsPublicFirst (a ∷ b ∷ addrs) =
    ((is_public_address a || not (is_public_address b)) ≡ true) × IsPublicFirst (b ∷ addrs)

module _ (locale_leb : Text → Text → Bool) where
  put-IsPublicFirst :
      (a : Text) (addrs : List Text) → IsPublicFirst addrs → IsPublicFirst (put locale_leb a addrs)
  unfolding put
  put-IsPublicFirst a [] h = tt
  put-IsPublicFirst a (b ∷ []) h = ground arith
  put-IsPublicFirst a (b ∷ c ∷ addrs) (p, h) = ground (arith, put-IsPublicFirst a (c ∷ addrs) h)

  prioritize-IsPublicFirst :
      (addrs : List Text) → IsPublicFirst (prioritize_addresses locale_leb addrs)
  unfolding prioritize_addresses
  prioritize-IsPublicFirst [] = tt
  prioritize-IsPublicFirst (a ∷ addrs) =
      put-IsPublicFirst a (prioritize_addresses locale_leb addrs) (prioritize-IsPublicFirst addrs)

  has-put :
      (x a : Text) (addrs : List Text)
      → TextSet.has x (put locale_leb a addrs) ≡ (text_eq a x || TextSet.has x addrs)
  unfolding put TextSet.has
  has-put x a [] = refl
  has-put x a (b ∷ addrs) = ground (arith, has-put x a addrs)

  has-prioritize :
      (x : Text) (addrs : List Text)
      → TextSet.has x (prioritize_addresses locale_leb addrs) ≡ TextSet.has x addrs
  unfolding prioritize_addresses TextSet.has
  has-prioritize x [] = refl
  has-prioritize x (a ∷ addrs) =
      ground (arith, has-put x a (prioritize_addresses locale_leb addrs), has-prioritize x addrs)

  -- Whatever the order of the locale, /multiaddrs lists exactly the addresses that the address
  -- manager announces, those that can be reached in front of those that cannot.
  pub has-listed_addresses :
      (env : Text → Option Text) (addrs : List Text)
      → ((x : Text)
          → TextSet.has x (listed_addresses locale_leb env addrs)
            ≡ TextSet.has x (filter_announce_addresses env addrs))
        × IsPublicFirst (listed_addresses locale_leb env addrs)
  unfolding listed_addresses
  has-listed_addresses env addrs = (
    λ x. has-prioritize x (filter_announce_addresses env addrs),
    prioritize-IsPublicFirst (filter_announce_addresses env addrs),
  )
