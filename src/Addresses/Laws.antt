-- ===== src/Addresses/Laws.antt =====
-- Theorems about the address conversions of src/services/database.ts and of
-- src/access/deferred-orbitdb-access-controller.ts.
use orbitdb_relay.Prelude.{
  Text, codes, starts_with, slice_from, true, false, Option, none, some, [], ◌∷◌, ◌++◌, ◌≡◌, refl,
  sym, ◌↔◌, inl, inr, arith, All, text_eq, text_eq_iff, starts_with-prefix, starts_with-nil,
  append-slice_from, Bool-cases, Option-cases,
}
use orbitdb_relay.Prelude.TextSet
use orbitdb_relay.Prelude.TextSet.{TextSet}
use orbitdb_relay.Addresses.{
  orbitdb_prefix, orbitdb_heads_prefix, normalize_orbitdb_access_address,
  remember_known_database_address, get_known_heads_protocols, db_address_from_heads_protocol,
  is_known_heads_protocol, to_underlying_address, to_custom_address,
}

abbrev pub IsDatabaseAddress : Text → Type 0
IsDatabaseAddress a = starts_with a orbitdb_prefix ≡ true

-- The heads prefix is stripped as it was put on.
from_heads :
    (a : Text)
    → IsDatabaseAddress a
    → db_address_from_heads_protocol (orbitdb_heads_prefix ++ a) ≡ some a
unfolding db_address_from_heads_protocol starts_with
from_heads [] h = cc
from_heads (x ∷ a) h = ground arith

heads_of :
    (p a : Text)
    → db_address_from_heads_protocol p ≡ some a
    → (p ≡ orbitdb_heads_prefix ++ a) × IsDatabaseAddress a
unfolding db_address_from_heads_protocol
heads_of p a h = ground (
  arith,
  append-slice_from p orbitdb_heads_prefix,
  starts_with-prefix p orbitdb_heads_prefix (codes "/"),
)

-- An id is read as the heads protocol of an address exactly when it is the heads prefix followed
-- by that address, and the address begins with /orbitdb/.
db_address_from_heads_protocol_iff :
    (p a : Text)
    → (db_address_from_heads_protocol p ≡ some a)
      ↔ ((p ≡ orbitdb_heads_prefix ++ a) × IsDatabaseAddress a)
db_address_from_heads_protocol_iff p a = (heads_of p a, λ h. rw (h.0) (from_heads a h.1))

-- Only database addresses are remembered.
remember-IsDatabaseAddress :
    (a : Option Text) (known : TextSet)
    → All IsDatabaseAddress known
    → All IsDatabaseAddress (remember_known_database_address a known)
unfolding remember_known_database_address
remember-IsDatabaseAddress none known h = h
remember-IsDatabaseAddress (some a) known h = elim (Bool-cases (starts_with a orbitdb_prefix)) [
  | inl yes_db ↦
      rw (yes_db, remember_known_database_address)
        (TextSet.All-add IsDatabaseAddress a known yes_db h)
  | inr no_db ↦ rw (no_db, remember_known_database_address) h
]

has-protocols :
    (a : Text) (known : TextSet)
    → TextSet.has (orbitdb_heads_prefix ++ a) (get_known_heads_protocols known)
      ≡ TextSet.has a known
unfolding get_known_heads_protocols TextSet.has text_eq
has-protocols a [] = refl
has-protocols a (k ∷ known) = ground (arith, has-protocols a known)

has-none :
    (known : TextSet) (p : Text)
    → All IsDatabaseAddress known
    → db_address_from_heads_protocol p ≡ none
    → TextSet.has p (get_known_heads_protocols known) ≡ false
unfolding get_known_heads_protocols TextSet.has
has-none [] p h e = refl
has-none (k ∷ known) p (q, h) e = elim (Bool-cases (text_eq (orbitdb_heads_prefix ++ k) p)) [
  | inl same ↦ ground (arith, from_heads k q, text_eq_iff (orbitdb_heads_prefix ++ k) p)
  | inr other ↦ rw other (has-none known p h e)
]

-- The relay answers for a protocol id exactly when it advertises it: `isKnownHeadsProtocol` holds
-- of an id if and only if `getKnownHeadsProtocols` lists it, where the known set holds database
-- addresses only.
pub is_known-has :
    (known : TextSet) (p : Text)
    → All IsDatabaseAddress known
    → is_known_heads_protocol known p ≡ TextSet.has p (get_known_heads_protocols known)
unfolding is_known_heads_protocol
is_known-has known p h = elim (Option-cases (db_address_from_heads_protocol p)) [
  | inl e ↦ rw (e, is_known_heads_protocol) (sym (has-none known p h e))
  | inr (a, e) ↦ rw (e, is_known_heads_protocol, (heads_of p a e).0) (sym (has-protocols a known))
]

-- A deferred controller's address and the address of the database under it are converted into
-- each other without loss, and the relay opens the database that the controller opened.
underlying-custom :
    (a : Text)
    → IsDatabaseAddress a
    → (to_underlying_address (to_custom_address (some a)) ≡ some a)
      × (normalize_orbitdb_access_address (to_custom_address (some a)) ≡ some a)
unfolding to_underlying_address to_custom_address normalize_orbitdb_access_address starts_with
underlying-custom a h =
    ground (arith, starts_with-nil (slice_from a 9), append-slice_from a orbitdb_prefix)
