-- ===== src/ManifestChain.antt =====
-- src/services/database.ts, `fetchManifestChain`: the blocks that have to be held before a database
-- opens. What `parseAddress` and the block store answer is a parameter, a failure with its message
-- (a throw, an abort or the timeout); `shown` is `String(v)`.
pub mod Laws
mod Tests
use orbitdb_relay.Prelude.{
  Text, codes, starts_with, slice_from, length, Bool, true, false, Option, none, some, List, [],
  ◌∷◌, ◌++◌, if◌then◌else◌,
}
use orbitdb_relay.Prelude.Map
use orbitdb_relay.Addresses.{normalize_orbitdb_access_address}
use orbitdb_relay.Service.{Service}
use orbitdb_relay.Values.{Value, str, member}

pub data Outcome {ℓ} (A : Type ℓ) : Type ℓ where
  failed : Text → Outcome A
  got : A → Outcome A

-- A block is its CID in print and its decoded value.
pub record Blocks : Type 0 where
  pub parse_address : Text → Outcome Text
  pub fetch_block : Text → Outcome (Text × Value)
  pub shown : Value → Text

-- `ManifestChainResult`, its failure as the step and the message
pub record ManifestChainResult : Type 0 where
  pub held : Bool
  pub blocks : List Text
  pub db_name : Option Text
  pub failure : Option (Text × Text)

abbrev pub ipfs_prefix : Text
ipfs_prefix = codes "/ipfs/"

abbrev pub text_of : Value → Option Text
text_of (str s) = some s
text_of _ = none

abbrev pub name_of : Value → Option Text
name_of (str (c ∷ s)) = some (c ∷ s)
name_of _ = none

abbrev pub controller_of : Value → Value
controller_of manifest = member (codes "accessController") manifest

abbrev pub not_held : List Text → Option Text → Text → Text → ManifestChainResult
not_held blocks db_name step error = record {
  held = false;
  blocks = blocks;
  db_name = db_name;
  failure = some (step, error);
}

abbrev pub fetch_hash : Blocks → Outcome Text → Outcome (Text × Value)
fetch_hash b (failed error) = failed error
fetch_hash b (got hash) = b.fetch_block hash

abbrev pub fetch_address : Blocks → Text → Outcome (Text × Value)
fetch_address b address = fetch_hash b (b.parse_address address)

-- The end of the chain, once the controller's block was asked for.
abbrev pub end_chain : List Text → Option Text → Outcome (Text × Value) → ManifestChainResult
end_chain blocks db_name (failed error) =
    not_held blocks db_name (codes "access-controller block") error
end_chain blocks db_name (got (cid, value)) = record {
  held = true;
  blocks = blocks ++ (cid ∷ []);
  db_name = db_name;
  failure = none;
}

unfoldable pub fetch_controller : Blocks → List Text → Option Text → Value → ManifestChainResult
fetch_controller b blocks db_name controller =
    let refused =
      not_held blocks db_name (codes "access-controller block")
        (codes "no /ipfs/ access controller to fetch: " ++ b.shown controller) in
    elim (text_of controller) [
      | none ↦ refused
      | some address ↦
          if starts_with address ipfs_prefix
          then end_chain blocks db_name (b.fetch_block (slice_from address (length ipfs_prefix)))
          else refused
    ]

abbrev pub follow_controller :
    Blocks → List Text → Option Text → Outcome (Text × Value) → ManifestChainResult
follow_controller b blocks db_name (failed error) =
    not_held blocks db_name (codes "access-controller manifest") error
follow_controller b blocks db_name (got (cid, manifest)) =
    fetch_controller b (blocks ++ (cid ∷ [])) db_name (controller_of manifest)

unfoldable pub fetch_controller_chain :
    Blocks → List Text → Option Text → Value → ManifestChainResult
unfolding fetch_controller
fetch_controller_chain b blocks db_name controller =
    elim (normalize_orbitdb_access_address (text_of controller)) [
      | none ↦ fetch_controller b blocks db_name controller
      | some controller_db ↦ follow_controller b blocks db_name (fetch_address b controller_db)
    ]

abbrev pub remember_name : Text → Option Text → Service → Service
remember_name db_address none service = service
remember_name db_address (some name) service = record service {
  orbit_db_name_by_address = Map.set db_address name service.orbit_db_name_by_address;
}

abbrev pub follow_manifest :
    Blocks → Text → Outcome (Text × Value) → Service → ManifestChainResult × Service
follow_manifest b db_address (failed error) service =
    (not_held [] none (codes "manifest") error, service)
follow_manifest b db_address (got (cid, manifest)) service =
    let db_name = name_of (member (codes "name") manifest) in
    (
      fetch_controller_chain b (cid ∷ []) db_name (controller_of manifest),
      remember_name db_address db_name service,
    )

unfoldable pub fetch_manifest_chain : Blocks → Text → Service → ManifestChainResult × Service
unfolding fetch_controller_chain
fetch_manifest_chain b db_address service =
    follow_manifest b db_address (fetch_address b db_address) service
