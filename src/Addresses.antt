-- ===== src/Addresses.antt =====
-- src/services/database.ts, the addresses: which strings name an OrbitDB database, the set of
-- databases that the relay knows, and the protocol ids of their on-demand heads exchange; and
-- src/access/deferred-orbitdb-access-controller.ts, its two address rewrites.
mod Tests
pub mod Laws
use orbitdb_relay.Prelude.{
  Text, codes, starts_with, slice_from, length, Bool, true, false, Option, none, some, List, map,
  [], ◌∷◌, ◌++◌, if◌then◌else◌,
}
use orbitdb_relay.Prelude.TextSet
use orbitdb_relay.Prelude.TextSet.{TextSet}

abbrev pub deferred_acl_prefix : Text
deferred_acl_prefix = codes "/orbitdb-deferred/"

abbrev pub orbitdb_prefix : Text
orbitdb_prefix = codes "/orbitdb/"

abbrev pub orbitdb_heads_prefix : Text
orbitdb_heads_prefix = codes "/orbitdb/heads"

-- `none` stands for null, undefined and whatever is no string.
unfoldable pub normalize_orbitdb_access_address : Option Text → Option Text
normalize_orbitdb_access_address none = none
normalize_orbitdb_access_address (some []) = none
normalize_orbitdb_access_address (some (c ∷ s)) =
    let address = c ∷ s in
    if starts_with address deferred_acl_prefix
    then some (orbitdb_prefix ++ slice_from address (length deferred_acl_prefix))
    else if starts_with address orbitdb_prefix
    then some address
    else none

unfoldable pub remember_known_database_address : Option Text → TextSet → TextSet
remember_known_database_address none known = known
remember_known_database_address (some address) known =
    if starts_with address orbitdb_prefix then TextSet.add address known else known

unfoldable pub get_known_heads_protocols : TextSet → List Text
get_known_heads_protocols known = map (λ address. orbitdb_heads_prefix ++ address) known

unfoldable pub db_address_from_heads_protocol : Text → Option Text
db_address_from_heads_protocol protocol =
    if starts_with protocol (codes "/orbitdb/heads/")
    then (let db_address = slice_from protocol (length orbitdb_heads_prefix) in
        if starts_with db_address orbitdb_prefix then some db_address else none)
    else none

unfoldable pub is_known_heads_protocol : TextSet → Text → Bool
is_known_heads_protocol known protocol = elim (db_address_from_heads_protocol protocol) [
  | none ↦ false
  | some db_address ↦ TextSet.has db_address known
]

unfoldable pub to_underlying_address : Option Text → Option Text
to_underlying_address none = none
to_underlying_address (some address) =
    if starts_with address deferred_acl_prefix
    then some (orbitdb_prefix ++ slice_from address (length deferred_acl_prefix))
    else some address

unfoldable pub to_custom_address : Option Text → Option Text
to_custom_address none = none
to_custom_address (some address) =
    if starts_with address orbitdb_prefix
    then some (deferred_acl_prefix ++ slice_from address (length orbitdb_prefix))
    else some address
