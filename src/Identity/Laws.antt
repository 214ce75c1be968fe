-- ===== src/Identity/Laws.antt =====
-- Theorems about the verification of identities.
use orbitdb_relay.Prelude.{
  Text, Bytes, codes, text_eq, Bool, false, Option, none, some, ◌++◌, ◌&&◌, if◌then◌else◌, ◌≡◌,
  arith,
}
use orbitdb_relay.Identity.{
  to_bytes, Identity, Verdict, answers, throws, Verify, verify_worker_ed25519_identity, Deps,
  routed, settle, verify_identity_fallback, default_deps,
}

abbrev pub accepts : Verdict → Bool
accepts throws = false
accepts (answers valid) = valid

abbrev pub signs : Verify → Option Bytes → Option Bytes → Option Bytes → Bool
signs verify (some key) (some signed) (some signature) = accepts (verify key signed signature)
signs verify _ _ _ = false

abbrev pub both : Option Bytes → Option Bytes → Option Bytes
both (some a) (some b) = some (a ++ b)
both _ _ = none

-- The key of the identity signs its id, and signs itself with that signature.
abbrev pub is_signed : (Text → Bytes) → Verify → Identity → Bool
is_signed encode verify identity = elim identity.id [
  | none ↦ false
  | some id ↦ elim identity.public_key [
    | none ↦ false
    | some key ↦ elim identity.signatures [
      | none ↦ false
      | some s ↦
          signs verify (to_bytes encode key) (some (encode id)) (to_bytes encode s.id)
          && signs verify (to_bytes encode key) (both (to_bytes encode key) (to_bytes encode s.id))
              (to_bytes encode s.public_key)
    ]
  ]
]

-- The fallback answers every identity, whatever its verifier throws. It accepts one of type did
-- exactly if the DID verifier does, one of type webauthn, if that provider can verify, exactly if
-- the WebAuthn verifier does, and one of type webauthn-varsig exactly if the varsig verifier does.
-- Any other it accepts exactly if it is a worker identity whose key signs its id and itself.
pub verify_identity_fallback_lem :
    (providers : Deps) (encode : Text → Bytes) (verify : Verify) (identity : Identity)
    → verify_identity_fallback (default_deps providers encode verify) (some identity) ≡ (
        if text_eq identity.type_ (codes "did")
        then accepts (providers.verify_did_identity identity)
        else if text_eq identity.type_ (codes "webauthn") && providers.webauthn_can_verify
        then accepts (providers.verify_webauthn_identity identity)
        else if text_eq identity.type_ (codes "webauthn-varsig")
        then accepts (providers.verify_varsig_identity identity)
        else text_eq identity.type_ (codes "worker-ed25519") && is_signed encode verify identity)
unfolding verify_identity_fallback routed settle verify_worker_ed25519_identity
verify_identity_fallback_lem providers encode verify identity = ground arith
