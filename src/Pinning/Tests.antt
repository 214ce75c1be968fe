-- ===== src/Pinning/Tests.antt =====
-- A run of the pin queue in src/services/database.ts on concrete events.
use orbitdb_relay.Prelude.{codes, text_eq, true, false, List, [], ◌∷◌, ◌≡◌, refl, ◌⊎◌}
use orbitdb_relay.Prelude.Map
use orbitdb_relay.Prelude.TextSet
use orbitdb_relay.Media.{ExtractedMediaCid}
use orbitdb_relay.Service.{new_service}
use orbitdb_relay.Pinning.{
  PinEvent, discovers, starts, pins, pin_run, pin_step, enqueue_image_cids_for_pinning, enqueue_all,
  enqueue_one, start_pin, settle_pin, take_task,
}
use orbitdb_relay.Pinning.Laws.{discovered-accounted, outstanding}

abbrev found_cids : List ExtractedMediaCid
found_cids = (codes "x", codes "imageCid" ∷ []) ∷ (codes "y", codes "cid" ∷ []) ∷ []

abbrev events : List PinEvent
events = discovers found_cids (codes "/orbitdb/a") ∷ starts (codes "x") ∷ pins (codes "x") ∷ []

still_up : (pin_run true events new_service).is_shutting_down ≡ false
unfolding pin_run pin_step enqueue_image_cids_for_pinning enqueue_all enqueue_one start_pin
    settle_pin take_task TextSet.has TextSet.add text_eq
still_up = refl

listed : TextSet.has (codes "y") (Map.keys found_cids) ≡ true
unfolding TextSet.has text_eq
listed = refl

discovered-accounted_example :
    let s =
      enqueue_image_cids_for_pinning true found_cids
        (codes "/orbitdb/b")
        (pin_run true events new_service) in
    (TextSet.has (codes "y") s.pinned_image_cids ≡ true) ⊎ (outstanding (codes "y") s ≡ 1)
discovered-accounted_example =
    discovered-accounted events found_cids (codes "/orbitdb/b") (codes "y") still_up listed
