-- ===== src/Registrar/Laws.antt =====
-- Theorems about the registrar hooks of src/services/orbitdb-replication-service.ts.
use orbitdb_relay.Prelude.{
  Text, Bool, true, false, Option, none, some, List, [], ◌∷◌, ◌++◌, ◌||◌, ◌≡◌, refl, ◌∙◌, arith,
  All, is_some,
}
use orbitdb_relay.Prelude.TextSet
use orbitdb_relay.Prelude.TextSet.{TextSet}
use orbitdb_relay.Prelude.Sort.{IsSorted, sort-IsSorted, has-sort, sort-Distinct}
use orbitdb_relay.Addresses.{get_known_heads_protocols, is_known_heads_protocol}
use orbitdb_relay.Addresses.Laws.{IsDatabaseAddress, is_known-has}
use orbitdb_relay.Registrar.{
  set_of, get_protocols, Found, registered, on_demand, throws, get_handler,
}

pub has-set_of :
    (p : Text) (xs : List Text) (set : TextSet)
    → TextSet.has p (set_of xs set) ≡ (TextSet.has p xs || TextSet.has p set)
unfolding set_of TextSet.has
has-set_of p [] set = refl
has-set_of p (x ∷ xs) set =
    ground (arith, has-set_of p xs (TextSet.add x set), TextSet.has-add p x set)

set_of-Distinct :
    (xs : List Text) (set : TextSet) → TextSet.Distinct set → TextSet.Distinct (set_of xs set)
unfolding set_of
set_of-Distinct [] set d = d
set_of-Distinct (x ∷ xs) set d =
    set_of-Distinct xs (TextSet.add x set) (TextSet.add-Distinct x set d)

has-get_protocols :
    (p : Text) (original : List Text) (known : TextSet)
    → TextSet.has p (get_protocols original known)
      ≡ (TextSet.has p original || TextSet.has p (get_known_heads_protocols known))
unfolding get_protocols TextSet.has
has-get_protocols p original known = ground (
  arith,
  has-sort p (set_of (original ++ get_known_heads_protocols known) []),
  has-set_of p (original ++ get_known_heads_protocols known) [],
  TextSet.has-append p original (get_known_heads_protocols known),
)

-- The list of protocols is sorted and has no protocol twice.
get_protocols-IsSorted :
    (original : List Text) (known : TextSet)
    → IsSorted (get_protocols original known) × TextSet.Distinct (get_protocols original known)
unfolding get_protocols
get_protocols-IsSorted original known =
    let set = set_of (original ++ get_known_heads_protocols known) [] in
    (
      sort-IsSorted set,
      sort-Distinct set (set_of-Distinct (original ++ get_known_heads_protocols known) [] tt),
    )

module _ {Handler : Type 0} where
  abbrev pub is_found : Found Handler → Bool
  is_found (registered handler) = true
  is_found on_demand = true
  is_found throws = false

  is_found-get_handler :
      (handler : Option Handler) (known : TextSet) (p : Text)
      → is_found (get_handler handler known p)
        ≡ (is_some handler || is_known_heads_protocol known p)
  unfolding get_handler
  is_found-get_handler (some h) known p = refl
  is_found-get_handler none known p = ground arith

  -- The relay finds a handler for a protocol exactly when it advertises the protocol, where the
  -- known set holds database addresses only and libp2p's registrar has handlers for the protocols
  -- that it lists, and no others.
  pub get_handler-has :
      (handler : Text → Option Handler) (original : List Text) (known : TextSet) (p : Text)
      → All IsDatabaseAddress known
      → ((q : Text) → is_some (handler q) ≡ TextSet.has q original)
      → is_found (get_handler (handler p) known p) ≡ TextSet.has p (get_protocols original known)
  get_handler-has handler original known p v listed =
      is_found-get_handler (handler p) known p
      ∙ ground (arith, listed p, is_known-has known p v, has-get_protocols p original known)
