-- ===== src/Access.antt =====
-- src/access/deferred-orbitdb-access-controller.ts and src/access/ipfs-access-controller.ts: who
-- may write, and how rights are granted and revoked. The key-value database of the controller is a
-- map to lists of writers. `getIdentity` and `verifyIdentityWithFallback` are arguments, and so is
-- what the database holds when it is read again after the wait for its replication.
pub mod Rights
pub mod Laws
mod Tests
use orbitdb_relay.Prelude.{
  ℕ, Text, codes, Bool, true, false, Option, none, some, List, [], ◌∷◌, ◌++◌, ◌||◌, ◌&&◌, not,
  if◌then◌else◌, get_or, ◌==◌,
}
use orbitdb_relay.Prelude.Map
use orbitdb_relay.Prelude.Map.{Map}
use orbitdb_relay.Prelude.TextSet
use orbitdb_relay.Prelude.TextSet.{TextSet}
use orbitdb_relay.Registrar.{set_of}

abbrev pub write_right : Text
write_right = codes "write"

abbrev pub admin_right : Text
admin_right = codes "admin"

-- The loop over the entries of the database.
unfoldable pub collect : Map (List Text) → Map TextSet → Map TextSet
unfolding set_of
collect [] current = current
collect ((capability, writers) ∷ entries) current =
    collect entries (Map.set capability (set_of writers []) current)

-- The database of the controller, and the writers of the controller of that database.
pub record Acl : Type 0 where
  pub entries : Map (List Text)
  pub access_write : List Text

unfoldable pub capabilities : Acl → Map TextSet
unfolding collect
capabilities acl =
    let current = collect acl.entries [] in
    Map.set admin_right (set_of (get_or (Map.get admin_right current) [] ++ acl.access_write) [])
      current

unfoldable pub get : Text → Acl → TextSet
unfolding capabilities
get capability acl = get_or (Map.get capability (capabilities acl)) []

unfoldable pub has_capability : Text → Text → Acl → Bool
unfolding get
has_capability capability key acl =
    let access = set_of (get capability acl) [] in
    TextSet.has key access || TextSet.has (codes "*") access

-- Whether `canAppend` waits for the database of the controller, at most for its timeout.
unfoldable pub waits_for_acl_replication : Bool → ℕ → Bool
waits_for_acl_replication acl_activity_seen peers = not acl_activity_seen && not (peers == 0)

unfoldable pub may_write : Text → Acl → Bool
unfolding has_capability
may_write id acl = has_capability write_right id acl || has_capability admin_right id acl

-- The identity that wrote the entry, the database before and after the wait, and the verification.
unfoldable pub can_append : Option Text → Acl → Acl → (Text → Bool) → Bool
unfolding may_write
can_append none acl later verify = false
can_append (some id) acl later verify =
    if not (may_write id acl || may_write id later) then false else verify id

unfoldable pub grant : Text → Text → Acl → Acl
grant capability key acl = record acl {
  entries =
      Map.set capability (set_of (get_or (Map.get capability acl.entries) [] ++ key ∷ []) [])
        acl.entries;
}

abbrev pub put_or_delete : Text → TextSet → Map (List Text) → Map (List Text)
put_or_delete capability [] entries = Map.delete capability entries
put_or_delete capability (key ∷ keys) entries = Map.set capability (key ∷ keys) entries

unfoldable pub revoke : Text → Text → Acl → Acl
revoke capability key acl = record acl {
  entries =
      put_or_delete capability
        (TextSet.delete key (set_of (get_or (Map.get capability acl.entries) []) [])) acl.entries;
}

-- `canAppend` of the controller over IPFS, with the writers of its base where they are an array.
unfoldable pub ipfs_can_append : Option Text → Option (List Text) → (Text → Bool) → Bool
ipfs_can_append none write verify = false
ipfs_can_append (some id) write verify =
    let allowed_writers = get_or write [] in
    if not (TextSet.has id allowed_writers) && not (TextSet.has (codes "*") allowed_writers)
    then false
    else verify id
