-- ===== src/Access/Laws.antt =====
-- Theorems about the access controllers of src/access/.
use orbitdb_relay.Prelude.{
  Text, codes, text_eq, text_eq_iff, Bool, false, Option, none, some, List, [], ◌∷◌, ◌++◌, ◌||◌,
  ◌&&◌, not, if◌then◌else◌, get_or, ◌≡◌, refl, arith,
}
use orbitdb_relay.Prelude.Map
use orbitdb_relay.Prelude.Map.{Map}
use orbitdb_relay.Prelude.TextSet
use orbitdb_relay.Prelude.TextSet.{TextSet}
use orbitdb_relay.Registrar.{set_of}
use orbitdb_relay.Registrar.Laws.{has-set_of}
use orbitdb_relay.Access.{
  Acl, get, admin_right, write_right, has_capability, may_write, can_append, grant, put_or_delete,
  revoke,
}
use orbitdb_relay.Access.Rights.{IsDatabase, lists, has_right, has-get}

-- A writer that the controller lets in, by itself or because everybody is.
abbrev pub is_allowed : Text → Acl → Bool
is_allowed id acl =
    (has_right write_right id acl || has_right write_right (codes "*") acl)
    || (has_right admin_right id acl || has_right admin_right (codes "*") acl)

has_capability_lem :
    (c k : Text) (acl : Acl)
    → IsDatabase acl.entries
    → has_capability c k acl ≡ (has_right c k acl || has_right c (codes "*") acl)
unfolding has_capability TextSet.has
has_capability_lem c k acl h = ground (
  arith,
  has-set_of k (get c acl) [],
  has-set_of (codes "*") (get c acl) [],
  has-get c k acl h,
  has-get c (codes "*") acl h,
)

-- An entry is appended exactly if its writer is known, may write or administer, before the wait for
-- the replication of the controller's database or after it, and the verification of its identity
-- succeeds.
pub can_append_lem :
    (identity : Option Text) (acl later : Acl) (verify : Text → Bool)
    → IsDatabase acl.entries
    → IsDatabase later.entries
    → can_append identity acl later verify ≡ (elim identity [
      | none ↦ false
      | some id ↦ (is_allowed id acl || is_allowed id later) && verify id
    ])
unfolding can_append may_write
can_append_lem none acl later verify h h' = refl
can_append_lem (some id) acl later verify h h' =
    rw
      (
        has_capability_lem write_right id acl h,
        has_capability_lem admin_right id acl h,
        has_capability_lem write_right id later h',
        has_capability_lem admin_right id later h',
      )
      (ground arith)

has-union :
    (k key : Text) (writers : List Text)
    → TextSet.has k (set_of (writers ++ key ∷ []) []) ≡ (TextSet.has k writers || text_eq key k)
unfolding TextSet.has
has-union k key writers =
    ground (arith, has-set_of k (writers ++ key ∷ []) [], TextSet.has-append k writers (key ∷ []))

has_right-grant :
    (cap key c k : Text) (acl : Acl)
    → has_right c k (grant cap key acl) ≡ (has_right c k acl || (text_eq cap c && text_eq key k))
unfolding grant
has_right-grant cap key c k acl =
    let writers = get_or (Map.get cap acl.entries) [] in
    ground (
      arith,
      Map.get-set c cap (set_of (writers ++ key ∷ []) []) acl.entries,
      has-union k key writers,
      text_eq_iff cap c,
    )

lists-put_or_delete :
    (cap c k : Text) (set : TextSet) (entries : Map (List Text))
    → lists c k (put_or_delete cap set entries)
      ≡ (if text_eq cap c then TextSet.has k set else lists c k entries)
unfolding TextSet.has
lists-put_or_delete cap c k [] entries = ground (arith, Map.get-delete c cap entries)
lists-put_or_delete cap c k (x ∷ set) entries = ground (arith, Map.get-set c cap (x ∷ set) entries)

has_right-revoke :
    (cap key c k : Text) (acl : Acl)
    → has_right c k (revoke cap key acl) ≡ (
        (lists c k acl.entries && not (text_eq cap c && text_eq key k))
        || (text_eq admin_right c && TextSet.has k acl.access_write))
unfolding revoke TextSet.has
has_right-revoke cap key c k acl =
    let writers = get_or (Map.get cap acl.entries) [] in
    ground (
      arith,
      lists-put_or_delete cap c k (TextSet.delete key (set_of writers [])) acl.entries,
      TextSet.has-delete k key (set_of writers []),
      has-set_of k writers [],
      text_eq_iff cap c,
    )

-- `grant` gives the key exactly that right, and takes none away. `revoke` takes the entry of the
-- key away, and no other; writers to the controller's own database stay administrators.
pub has_right-changes :
    (cap key c k : Text) (acl : Acl)
    → (has_right c k (grant cap key acl) ≡ (has_right c k acl || (text_eq cap c && text_eq key k)))
      × (has_right c k (revoke cap key acl) ≡ (
          (lists c k acl.entries && not (text_eq cap c && text_eq key k))
          || (text_eq admin_right c && TextSet.has k acl.access_write)))
has_right-changes cap key c k acl =
    (has_right-grant cap key c k acl, has_right-revoke cap key c k acl)

pub grant-IsDatabase :
    (cap key : Text) (acl : Acl) → IsDatabase acl.entries → IsDatabase (grant cap key acl).entries
unfolding grant
grant-IsDatabase cap key acl h =
    Map.set-Distinct cap (set_of (get_or (Map.get cap acl.entries) [] ++ key ∷ []) []) acl.entries h

put_or_delete-IsDatabase :
    (cap : Text) (set : TextSet) (entries : Map (List Text))
    → IsDatabase entries
    → IsDatabase (put_or_delete cap set entries)
put_or_delete-IsDatabase cap [] entries h = Map.delete-Distinct cap entries h
put_or_delete-IsDatabase cap (x ∷ set) entries h = Map.set-Distinct cap (x ∷ set) entries h

revoke-IsDatabase :
    (cap key : Text) (acl : Acl) → IsDatabase acl.entries → IsDatabase (revoke cap key acl).entries
unfolding revoke
revoke-IsDatabase cap key acl h =
    put_or_delete-IsDatabase cap
      (TextSet.delete key (set_of (get_or (Map.get cap acl.entries) []) [])) acl.entries h
