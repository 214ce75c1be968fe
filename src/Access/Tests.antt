-- ===== src/Access/Tests.antt =====
-- The access controllers of src/access/ with two writers.
use orbitdb_relay.Prelude.{codes, text_eq, true, false, some, [], ◌∷◌, ◌||◌, ◌&&◌, not, ◌≡◌, refl}
use orbitdb_relay.Prelude.Map
use orbitdb_relay.Prelude.TextSet
use orbitdb_relay.Registrar.{set_of}
use orbitdb_relay.Access.{Acl, can_append, grant, revoke, admin_right, write_right}
use orbitdb_relay.Access.Rights.{lists, has_right}
use orbitdb_relay.Access.Laws.{is_allowed, can_append_lem, grant-IsDatabase, has_right-changes}

abbrev acl : Acl
acl = record {
  entries = (codes "write", codes "alice" ∷ []) ∷ [];
  access_write = codes "carol" ∷ [];
}

abbrev granted : Acl
granted = grant write_right (codes "bob") acl

can_append_lem_example :
    can_append (some (codes "bob")) acl granted (λ id. true)
    ≡ ((is_allowed (codes "bob") acl || is_allowed (codes "bob") granted) && true)
unfolding TextSet.has
can_append_lem_example =
    can_append_lem (some (codes "bob")) acl granted (λ id. true) (refl, tt)
      (grant-IsDatabase write_right (codes "bob") acl (refl, tt))

has_right-changes_example :
    (has_right write_right (codes "bob") granted ≡ (
      has_right write_right (codes "bob") acl
      || (text_eq write_right write_right && text_eq (codes "bob") (codes "bob"))))
    × (has_right write_right (codes "bob") (revoke write_right (codes "bob") acl) ≡ (
        (lists write_right (codes "bob") acl.entries
          && not (text_eq write_right write_right && text_eq (codes "bob") (codes "bob")))
        || (text_eq admin_right write_right && TextSet.has (codes "bob") acl.access_write)))
has_right-changes_example =
    has_right-changes write_right (codes "bob") write_right (codes "bob") acl

bob_appends_after_grant :
    (can_append (some (codes "bob")) acl acl (λ id. true) ≡ false)
    × (can_append (some (codes "bob")) acl granted (λ id. true) ≡ true)
unfolding can_append grant TextSet.has TextSet.add Map.get Map.set text_eq set_of
bob_appends_after_grant = (refl, refl)
