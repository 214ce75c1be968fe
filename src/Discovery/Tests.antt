-- ===== src/Discovery/Tests.antt =====
-- The walk for addresses of src/services/database.ts on a concrete record.
use orbitdb_relay.Prelude.{codes, true, [], ◌∷◌, ◌≡◌, ◌↔◌}
use orbitdb_relay.Prelude.TextSet
use orbitdb_relay.Values.{Value, str, obj, arr, cons, nil, field, end}
use orbitdb_relay.Discovery.{remember_known_database_addresses_from_records}
use orbitdb_relay.Discovery.Laws.{Added, Held, remember_records_iff}

abbrev album : Value
album = obj (field (codes "value") (arr (cons (str (codes "/orbitdb/b")) nil)) end)

remember_records_iff_example :
    (TextSet.has
        (codes "/orbitdb/b")
        (remember_known_database_addresses_from_records (album ∷ []) [])
      ≡ true)
    ↔ Added (codes "/orbitdb/b") (Held (codes "/orbitdb/b") (album ∷ [])) []
remember_records_iff_example = remember_records_iff (codes "/orbitdb/b") (album ∷ []) []
