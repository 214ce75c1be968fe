-- ===== src/Access/Rights.antt =====
-- The rights that the controllers of src/access/ read out of their database.
use orbitdb_relay.Prelude.{
  Text, text_eq, text_eq_iff, Bool, some, List, [], ◌∷◌, ◌++◌, ◌||◌, ◌&&◌, if◌then◌else◌, get_or,
  ◌≡◌, refl, arith,
}
use orbitdb_relay.Prelude.Map
use orbitdb_relay.Prelude.Map.{Map}
use orbitdb_relay.Prelude.TextSet
use orbitdb_relay.Prelude.TextSet.{TextSet}
use orbitdb_relay.Registrar.{set_of}
use orbitdb_relay.Registrar.Laws.{has-set_of}
use orbitdb_relay.Access.{Acl, collect, capabilities, get, admin_right}

-- A database has one entry for each capability.
abbrev pub IsDatabase : Map (List Text) → Type 0
IsDatabase entries = TextSet.Distinct (Map.keys entries)

-- The writers that the database lists for a capability.
abbrev pub lists : Text → Text → Map (List Text) → Bool
lists capability key entries = TextSet.has key (get_or (Map.get capability entries) [])

get-collect :
    (c : Text) (entries : Map (List Text)) (current : Map TextSet)
    → IsDatabase entries
    → Map.get c (collect entries current) ≡ (
        if Map.has c entries
        then some (set_of (get_or (Map.get c entries) []) [])
        else Map.get c current)
unfolding collect Map.get TextSet.has
get-collect c [] current h = refl
get-collect c ((d, writers) ∷ entries) current (fresh, h) = ground (
  arith,
  get-collect c entries (Map.set d (set_of writers []) current) h,
  Map.get-set c d (set_of writers []) current,
  Map.has-keys d entries,
  text_eq_iff d c,
)

-- Whether a key has a right: the database lists it, or it writes to the database of the controller.
abbrev pub has_right : Text → Text → Acl → Bool
has_right capability key acl =
    lists capability key acl.entries
    || (text_eq admin_right capability && TextSet.has key acl.access_write)

has-collect :
    (c k : Text) (entries : Map (List Text))
    → IsDatabase entries
    → TextSet.has k (get_or (Map.get c (collect entries [])) []) ≡ lists c k entries
unfolding Map.get TextSet.has
has-collect c k entries h = ground (
  arith,
  get-collect c entries [] h,
  has-set_of k (get_or (Map.get c entries) []) [],
  TextSet.has-append k (get_or (Map.get c entries) []) [],
)

pub has-get :
    (c k : Text) (acl : Acl)
    → IsDatabase acl.entries
    → TextSet.has k (get c acl) ≡ has_right c k acl
unfolding get capabilities TextSet.has
has-get c k acl h =
    let current = collect acl.entries [] in
    let admins = get_or (Map.get admin_right current) [] ++ acl.access_write in
    ground (
      arith,
      Map.get-set c admin_right (set_of admins []) current,
      has-collect c k acl.entries h,
      has-collect admin_right k acl.entries h,
      has-set_of k admins [],
      TextSet.has-append k (get_or (Map.get admin_right current) []) acl.access_write,
      text_eq_iff admin_right c,
    )
