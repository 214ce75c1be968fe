-- ===== src/Watch/Tests.antt =====
-- Listeners of src/services/database.ts on concrete databases and updates.
use orbitdb_relay.Prelude.{Text, codes, text_eq, true, Bool, Option, none, [], ◌∷◌, refl, inl, map}
use orbitdb_relay.Values.{Value, str, obj, field, end, lookup}
use orbitdb_relay.Media.References.{offers}
use orbitdb_relay.Media.Laws.{Referenced}
use orbitdb_relay.Service.{Db, new_service}
use orbitdb_relay.Pinning.Laws.{PinInv, pin_run-PinInv}
use orbitdb_relay.Pinning.{pin_run}
use orbitdb_relay.Watch.{update_record}

abbrev all_have_events : Db → Bool
all_have_events db = true

abbrev no_json : Text → Option Value
no_json text = none

abbrev update : Value
update = obj (
    field (codes "payload")
      (obj (field (codes "value") (obj (field (codes "mediaId") (str (codes "bafy")) end)) end))
      end)

update-Referenced : Referenced no_json (codes "bafy") (map update_record (update ∷ []))
unfolding update_record lookup text_eq
update-Referenced = inl (offers refl)

new_service-PinInv : PinInv new_service (codes "bafy")
unfolding pin_run
new_service-PinInv = pin_run-PinInv true [] (codes "bafy")
