-- ===== src/ManifestChain/Laws.antt =====
-- Theorems about `fetchManifestChain` of src/services/database.ts.
use mathlib.Core.List.{append_assoc}
use orbitdb_relay.Prelude.{
  Text, codes, starts_with, slice_from, length, true, false, Option, none, some, List, [], ◌∷◌,
  ◌++◌, if◌then◌else◌, ◌≡◌, refl, is_some, not, Option-cases, Bool-cases, inl, inr, ◌∙◌, ap,
}
use orbitdb_relay.Addresses.{normalize_orbitdb_access_address}
use orbitdb_relay.Service.{Service}
use orbitdb_relay.Values.{Value, member}
use orbitdb_relay.ManifestChain.{
  Outcome, failed, got, Blocks, ManifestChainResult, ipfs_prefix, text_of, name_of, controller_of,
  fetch_address, end_chain, fetch_controller, follow_controller, fetch_controller_chain,
  follow_manifest, fetch_manifest_chain,
}

abbrev pub with_front : Text → Option (List Text) → Option (List Text)
with_front cid none = none
with_front cid (some rest) = some (cid ∷ rest)

-- What follows a block, where there is one, with its CID in front.
abbrev pub then_of : Outcome (Text × Value) → (Value → Option (List Text)) → Option (List Text)
then_of (failed error) next = none
then_of (got (cid, value)) next = with_front cid (next value)

-- The block that an /ipfs/ controller names.
abbrev pub controller_block : Blocks → Option Text → Option (List Text)
controller_block b none = none
controller_block b (some address) =
    if starts_with address ipfs_prefix
    then then_of (b.fetch_block (slice_from address (length ipfs_prefix))) (λ value. some [])
    else none

-- The controller's own chain: its block, or the manifest of its database and then the block.
abbrev pub chain_from : Blocks → Value → Option Text → Option (List Text)
chain_from b controller none = controller_block b (text_of controller)
chain_from b controller (some a) =
    then_of (fetch_address b a) (λ m. controller_block b (text_of (controller_of m)))

abbrev pub controller_chain : Blocks → Value → Option (List Text)
controller_chain b controller =
    chain_from b controller (normalize_orbitdb_access_address (text_of controller))

-- All blocks that a database needs to open, where each of them can be fetched.
abbrev pub whole_chain : Blocks → Text → Option (List Text)
whole_chain b a = then_of (fetch_address b a) (λ m. controller_chain b (controller_of m))

-- The result where the chain before is `blocks` and the rest of it `rest`.
abbrev Ends : List Text → Option Text → ManifestChainResult → Option (List Text) → Type 0
Ends blocks name r none = (r.held ≡ false) × (is_some r.failure ≡ true) × (r.db_name ≡ name)
Ends blocks name r (some rest) =
    (r.held ≡ true) × (r.blocks ≡ blocks ++ rest) × (is_some r.failure ≡ false) × (r.db_name ≡ name)

Ends-shift :
    (blocks : List Text) (name : Option Text) (r : ManifestChainResult) (cid : Text)
    (rest : Option (List Text))
    → Ends (blocks ++ (cid ∷ [])) name r rest
    → Ends blocks name r (with_front cid rest)
Ends-shift blocks name r cid none h = h
Ends-shift blocks name r cid (some rest) (held, same, failure, names) =
    (held, same ∙ append_assoc blocks (cid ∷ []) rest, failure, names)

end_chain-Ends :
    (blocks : List Text) (name : Option Text) (o : Outcome (Text × Value))
    → Ends blocks name (end_chain blocks name o) (then_of o (λ value. some []))
end_chain-Ends blocks name (failed error) = (refl, refl, refl)
end_chain-Ends blocks name (got (cid, value)) = (refl, refl, refl, refl)

fetch_controller-Ends :
    (b : Blocks) (blocks : List Text) (name : Option Text) (v : Value)
    → Ends blocks name (fetch_controller b blocks name v) (controller_block b (text_of v))
unfolding fetch_controller
fetch_controller-Ends b blocks name v = elim (Option-cases (text_of v)) [
  | inl e ↦ rw (e, fetch_controller) (refl, refl, refl)
  | inr (address, e) ↦ elim (Bool-cases (starts_with address ipfs_prefix)) [
    | inl s ↦
        rw (e, fetch_controller, s)
          (end_chain-Ends blocks name (b.fetch_block (slice_from address (length ipfs_prefix))))
    | inr s ↦ rw (e, fetch_controller, s) (refl, refl, refl)
  ]
]

follow_controller-Ends :
    (b : Blocks) (blocks : List Text) (name : Option Text) (o : Outcome (Text × Value))
    → Ends blocks name
        (follow_controller b blocks name o)
        (then_of o (λ m. controller_block b (text_of (controller_of m))))
follow_controller-Ends b blocks name (failed error) = (refl, refl, refl)
follow_controller-Ends b blocks name (got (cid, m)) =
    Ends-shift blocks name (fetch_controller b (blocks ++ (cid ∷ [])) name (controller_of m)) cid
      (controller_block b (text_of (controller_of m)))
      (fetch_controller-Ends b (blocks ++ (cid ∷ [])) name (controller_of m))

fetch_controller_chain-Ends :
    (b : Blocks) (blocks : List Text) (name : Option Text) (v : Value)
    → Ends blocks name
        (fetch_controller_chain b blocks name v)
        (chain_from b v (normalize_orbitdb_access_address (text_of v)))
unfolding fetch_controller_chain
fetch_controller_chain-Ends b blocks name v =
    elim (Option-cases (normalize_orbitdb_access_address (text_of v))) [
      | inl e ↦ rw (e, fetch_controller_chain) (fetch_controller-Ends b blocks name v)
      | inr (a, e) ↦
          rw (e, fetch_controller_chain) (follow_controller-Ends b blocks name (fetch_address b a))
    ]

abbrev pub held_blocks : ManifestChainResult → Option (List Text)
held_blocks r = if r.held then some r.blocks else none

Ends-held :
    (cid : Text) (name : Option Text) (r : ManifestChainResult) (rest : Option (List Text))
    → Ends (cid ∷ []) name r rest
    → (held_blocks r ≡ with_front cid rest) × (is_some r.failure ≡ not r.held)
Ends-held cid name r none (held, failure, h) = rw held (refl, failure)
Ends-held cid name r (some rest) (held, same, failure, h) = rw held (ap some same, failure)

follow_manifest-held :
    (b : Blocks) (a : Text) (o : Outcome (Text × Value)) (service : Service)
    → (held_blocks (follow_manifest b a o service).0
        ≡ then_of o (λ m. controller_chain b (controller_of m)))
      × (is_some (follow_manifest b a o service).0.failure
          ≡ not (follow_manifest b a o service).0.held)
follow_manifest-held b a (failed error) service = (refl, refl)
follow_manifest-held b a (got (cid, m)) service =
    let name = name_of (member (codes "name") m) in
    Ends-held cid name (fetch_controller_chain b (cid ∷ []) name (controller_of m))
      (controller_chain b (controller_of m))
      (fetch_controller_chain-Ends b (cid ∷ []) name (controller_of m))

-- `fetchManifestChain` says that a database's chain is held exactly when all blocks that it needs
-- to open can be fetched: the manifest, the manifest of its controller's database where there is
-- one, and the block that the /ipfs/ controller names. It then lists those blocks in that order,
-- and it reports a failed step exactly when the chain is not held.
pub held-whole_chain :
    (b : Blocks) (a : Text) (service : Service)
    → (held_blocks (fetch_manifest_chain b a service).0 ≡ whole_chain b a)
      × (is_some (fetch_manifest_chain b a service).0.failure
          ≡ not (fetch_manifest_chain b a service).0.held)
unfolding fetch_manifest_chain
held-whole_chain b a service = follow_manifest-held b a (fetch_address b a) service
