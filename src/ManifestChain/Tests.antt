-- ===== src/ManifestChain/Tests.antt =====
-- `fetchManifestChain` of src/services/database.ts on a database with an /ipfs/ controller.
use orbitdb_relay.Prelude.{
  Text, codes, starts_with, slice_from, text_eq, some, [], ◌∷◌, if◌then◌else◌, ◌≡◌, refl, is_some,
  not,
}
use orbitdb_relay.Addresses.{normalize_orbitdb_access_address}
use orbitdb_relay.Service.{new_service}
use orbitdb_relay.Values.{Value, str, obj, null, field, end, lookup}
use orbitdb_relay.ManifestChain.{Outcome, failed, got, Blocks, fetch_manifest_chain}
use orbitdb_relay.ManifestChain.Laws.{held_blocks, whole_chain, held-whole_chain}

abbrev manifest : Value
manifest = obj (
    field (codes "name") (str (codes "notes"))
      (field (codes "accessController") (str (codes "/ipfs/zacl")) end))

abbrev fetch : Text → Outcome (Text × Value)
fetch hash =
    if text_eq hash (codes "zdb")
    then got (codes "bdb", manifest)
    else if text_eq hash (codes "zacl")
    then got (codes "bacl", null)
    else failed (codes "timeout")

abbrev store : Blocks
store = record {
  parse_address = λ address. got (slice_from address 9);
  fetch_block = fetch;
  shown = λ v. [];
}

held-whole_chain_example :
    (held_blocks (fetch_manifest_chain store (codes "/orbitdb/zdb") new_service).0
      ≡ whole_chain store (codes "/orbitdb/zdb"))
    × (is_some (fetch_manifest_chain store (codes "/orbitdb/zdb") new_service).0.failure
        ≡ not (fetch_manifest_chain store (codes "/orbitdb/zdb") new_service).0.held)
held-whole_chain_example = held-whole_chain store (codes "/orbitdb/zdb") new_service

both_held : whole_chain store (codes "/orbitdb/zdb") ≡ some (codes "bdb" ∷ codes "bacl" ∷ [])
unfolding text_eq lookup starts_with normalize_orbitdb_access_address
both_held = refl
