-- ===== src/Identity.antt =====
-- src/identity/relay-verify-fallback.ts and src/identity/worker-ed25519.ts: which verifier an
-- identity goes to, and the two signatures of a worker identity. The verifiers of the other types,
-- Ed25519 and UTF-8 are arguments.
pub mod Laws
mod Tests
use orbitdb_relay.Prelude.{
  ℕ, Text, Bytes, codes, text_eq, Bool, true, false, Option, none, some, List, [], ◌∷◌, ◌++◌, ◌&&◌,
  not, if◌then◌else◌,
}

-- The values that `toBytes` tells apart: bytes in one of their forms, a text, an object with
-- `bytes` or with `value`, the values of another object, and a value that is falsy or no object.
pub data Data : Type 0 where
  raw : Bytes → Data
  text : Text → Data
  with_bytes with_value : Data → Data
  values : Bytes → Data
  unsupported : Data

-- `none` is an exception.
unfoldable pub to_bytes : (Text → Bytes) → Data → Option Bytes
to_bytes encode (raw bytes) = some bytes
to_bytes encode (text s) = some (encode s)
to_bytes encode (with_bytes data_) = to_bytes encode data_
to_bytes encode (with_value data_) = to_bytes encode data_
to_bytes encode (values bytes) = some bytes
to_bytes encode unsupported = none

pub record Signatures : Type 0 where
  pub id : Data
  pub public_key : Data

-- A field that is missing or falsy is `none`.
pub record Identity : Type 0 where
  pub type_ : Text
  pub id : Option Text
  pub public_key : Option Data
  pub signatures : Option Signatures

pub data Verdict : Type 0 where
  answers : Bool → Verdict
  throws : Verdict

-- `verify key data signature` of Ed25519; `publicKeyFromRaw` may throw.
abbrev pub Verify : Type 0
Verify = Bytes → Bytes → Bytes → Verdict

unfoldable pub and_then : Verdict → Verdict → Verdict
and_then throws second = throws
and_then (answers false) second = answers false
and_then (answers true) second = second

abbrev pub check_signatures : Verify → Bytes → Bytes → Bytes → Bytes → Verdict
check_signatures verify did_bytes key id_signature key_signature =
    and_then (verify key did_bytes id_signature) (verify key (key ++ id_signature) key_signature)

-- `inspectWorkerEd25519Identity(identity).valid`, with its fields as bytes.
abbrev pub check_bytes : Verify → Bytes → Option Bytes → Option Bytes → Option Bytes → Verdict
check_bytes verify did_bytes (some key) (some id_signature) (some key_signature) =
    check_signatures verify did_bytes key id_signature key_signature
check_bytes verify did_bytes _ _ _ = throws

abbrev pub check_fields :
    (Text → Bytes) → Verify → Option Text → Option Data → Option Signatures → Verdict
check_fields encode verify (some id) (some public_key) (some signatures) =
    check_bytes verify (encode id) (to_bytes encode public_key) (to_bytes encode signatures.id)
      (to_bytes encode signatures.public_key)
check_fields encode verify _ _ _ = answers false

unfoldable pub verify_worker_ed25519_identity : (Text → Bytes) → Verify → Identity → Verdict
unfolding to_bytes and_then
verify_worker_ed25519_identity encode verify identity =
    if not (text_eq identity.type_ (codes "worker-ed25519"))
    then answers false
    else check_fields encode verify identity.id identity.public_key identity.signatures

-- `RelayVerifyIdentityDeps`; `webauthn_can_verify` is the test of the provider's function.
pub record Deps : Type 0 where
  pub verify_did_identity : Identity → Verdict
  pub webauthn_can_verify : Bool
  pub verify_webauthn_identity : Identity → Verdict
  pub verify_varsig_identity : Identity → Verdict
  pub verify_worker_ed25519_identity : Identity → Verdict

-- `try { return await … } catch { return false }`
unfoldable pub settle : Verdict → Bool
settle throws = false
settle (answers valid) = valid

unfoldable pub routed : Deps → Identity → Verdict
routed deps identity =
    if text_eq identity.type_ (codes "did")
    then deps.verify_did_identity identity
    else if text_eq identity.type_ (codes "webauthn") && deps.webauthn_can_verify
    then deps.verify_webauthn_identity identity
    else if text_eq identity.type_ (codes "webauthn-varsig")
    then deps.verify_varsig_identity identity
    else deps.verify_worker_ed25519_identity identity

unfoldable pub verify_identity_fallback : Deps → Option Identity → Bool
unfolding routed settle
verify_identity_fallback deps none = false
verify_identity_fallback deps (some identity) = settle (routed deps identity)

-- `defaultRelayVerifyIdentityDeps`, given the providers.
abbrev pub default_deps : Deps → (Text → Bytes) → Verify → Deps
default_deps providers encode verify = record providers {
  verify_worker_ed25519_identity = verify_worker_ed25519_identity encode verify;
}
