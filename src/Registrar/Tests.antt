-- ===== src/Registrar/Tests.antt =====
-- The registrar of src/services/orbitdb-replication-service.ts with one protocol and one known
-- database.
use orbitdb_relay.Prelude.{
  Text, codes, text_eq, Option, none, some, [], ◌∷◌, ◌≡◌, refl, starts_with, if◌then◌else◌, is_some,
  All, Bool-cases, inl, inr,
}
use orbitdb_relay.Prelude.TextSet
use orbitdb_relay.Prelude.TextSet.{TextSet}
use orbitdb_relay.Addresses.Laws.{IsDatabaseAddress}
use orbitdb_relay.Registrar.{get_handler, get_protocols}
use orbitdb_relay.Registrar.Laws.{is_found, get_handler-has}

abbrev known : TextSet
known = codes "/orbitdb/a" ∷ []

abbrev ping_handler : Text → Option Text
ping_handler q = if text_eq (codes "/ping") q then some (codes "pong") else none

ping_handler-has : (q : Text) → is_some (ping_handler q) ≡ TextSet.has q (codes "/ping" ∷ [])
unfolding TextSet.has
ping_handler-has q = elim (Bool-cases (text_eq (codes "/ping") q)) [
  | inl same ↦ rw same refl
  | inr other ↦ rw other refl
]

known-IsDatabaseAddress : All IsDatabaseAddress known
unfolding starts_with
known-IsDatabaseAddress = (refl, tt)

get_handler-has_example :
    is_found (
      get_handler
        (ping_handler (codes "/orbitdb/heads/orbitdb/a"))
        known
        (codes "/orbitdb/heads/orbitdb/a"))
    ≡ TextSet.has (codes "/orbitdb/heads/orbitdb/a") (get_protocols (codes "/ping" ∷ []) known)
get_handler-has_example =
    get_handler-has ping_handler (codes "/ping" ∷ []) known (codes "/orbitdb/heads/orbitdb/a")
      known-IsDatabaseAddress ping_handler-has
