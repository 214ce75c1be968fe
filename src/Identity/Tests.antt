-- ===== src/Identity/Tests.antt =====
-- The verification of concrete identities, with a key that signs whatever begins with it.
use orbitdb_relay.Prelude.{
  Text, Bytes, codes, text_eq, true, false, some, [], ◌∷◌, ◌&&◌, if◌then◌else◌, ◌≡◌, refl,
}
use orbitdb_relay.Identity.{
  raw, text, with_value, to_bytes, Identity, answers, throws, Verify, and_then, settle, routed,
  Deps, default_deps, verify_worker_ed25519_identity, verify_identity_fallback,
}
use orbitdb_relay.Identity.Laws.{accepts, is_signed, verify_identity_fallback_lem}

abbrev encode : Text → Bytes
encode s = s

-- A signature is good if it repeats what it signs.
abbrev verify : Verify
verify key signed signature = answers (text_eq signed signature)

abbrev providers : Deps
providers = record {
  verify_did_identity = λ identity. throws;
  webauthn_can_verify = true;
  verify_webauthn_identity = λ identity. answers true;
  verify_varsig_identity = λ identity. answers false;
  verify_worker_ed25519_identity = λ identity. throws;
}

abbrev worker : Identity
worker = record {
  type_ = codes "worker-ed25519";
  id = some (codes "did:key:a");
  public_key = some (with_value (raw (7 ∷ [])));
  signatures =
      some (record { id = text (codes "did:key:a"); public_key = text (7 ∷ codes "did:key:a") });
}

verify_identity_fallback_lem_example :
    verify_identity_fallback (default_deps providers encode verify) (some worker) ≡ (
      if text_eq worker.type_ (codes "did")
      then accepts (providers.verify_did_identity worker)
      else if text_eq worker.type_ (codes "webauthn") && providers.webauthn_can_verify
      then accepts (providers.verify_webauthn_identity worker)
      else if text_eq worker.type_ (codes "webauthn-varsig")
      then accepts (providers.verify_varsig_identity worker)
      else text_eq worker.type_ (codes "worker-ed25519") && is_signed encode verify worker)
verify_identity_fallback_lem_example = verify_identity_fallback_lem providers encode verify worker

accepts_worker :
    verify_identity_fallback (default_deps providers encode verify) (some worker) ≡ true
unfolding verify_identity_fallback routed settle verify_worker_ed25519_identity to_bytes and_then
    text_eq
accepts_worker = refl

-- A verifier that throws rejects the identity.
rejects_did :
    verify_identity_fallback
      (default_deps providers encode verify)
      (some (record worker { type_ = codes "did" }))
    ≡ false
unfolding verify_identity_fallback routed settle text_eq
rejects_did = refl
