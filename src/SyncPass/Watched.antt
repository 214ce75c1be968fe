-- ===== src/SyncPass/Watched.antt =====
-- Which databases a sync pass of src/services/database.ts leaves watched.
use orbitdb_relay.Prelude.{
  Text, text_eq, text_eq_iff, true, Option, none, some, ◌≡◌, refl, ◌∙◌, arith, not, ◌||◌, ◌&&◌,
}
use orbitdb_relay.Prelude.Map
use orbitdb_relay.Retention.{release_open_database}
use orbitdb_relay.Service.{Service, Db}
use orbitdb_relay.Watch.{unwatch_database_updates}
use orbitdb_relay.SyncPass.{
  Locals, unwatch_unheld, unwatch_controller, release_unheld, release_controller, clean_up,
}
use orbitdb_relay.SyncPass.Held.{is_named, unwatch_unheld_pinned, clean_up_pinned}

unwatch_unheld_lem :
    (a b : Text) (s : Service)
    → Map.has b (unwatch_unheld a s).event_handlers
      ≡ (Map.has b s.event_handlers && (not (text_eq a b) || Map.has a s.pinned_open_databases))
unfolding unwatch_unheld unwatch_database_updates
unwatch_unheld_lem a b s = ground (arith, Map.get-delete b a s.event_handlers)

release_unheld_watched :
    (a : Text) (db : Option Db) (s : Service)
    → (release_unheld a db s).1.event_handlers ≡ s.event_handlers
unfolding release_unheld release_open_database
release_unheld_watched a none s = refl
release_unheld_watched a (some db) s = ground arith

release_controller_watched :
    (acl : Option Text) (acl_db db : Option Db) (s : Service)
    → (release_controller acl acl_db db s).1.event_handlers ≡ s.event_handlers
unfolding release_controller
release_controller_watched (some a) (some acl_db) db s =
    ground (arith, release_unheld_watched a (some acl_db) s)
release_controller_watched (some a) none db s = refl
release_controller_watched none acl_db db s = refl

clean_up_watched :
    (l : Locals) (s : Service)
    → (clean_up l s).event_handlers
      ≡ (unwatch_controller l.acl_address l.db_address
          (unwatch_unheld l.db_address s)).event_handlers
unfolding clean_up
clean_up_watched l s =
    release_controller_watched l.acl_address l.acl_db l.db _
    ∙ release_unheld_watched l.db_address l.db _

unwatches_named :
    (acl : Option Text) (a b : Text) (s : Service)
    → (text_eq a b || is_named b acl) ≡ true
    → Map.has b (unwatch_controller acl a (unwatch_unheld a s)).event_handlers ≡ true
    → Map.has b s.pinned_open_databases ≡ true
unfolding unwatch_controller
unwatches_named none a b s named watched =
    ground (arith, named, watched, unwatch_unheld_lem a b s, text_eq_iff a b)
unwatches_named (some acl) a b s named watched = ground (
  arith,
  named,
  watched,
  unwatch_unheld_lem a b s,
  unwatch_unheld_lem acl b (unwatch_unheld a s),
  unwatch_unheld_pinned a s,
  text_eq_iff a b,
  text_eq_iff acl a,
  text_eq_iff acl b,
)

-- After the `finally` of a pass neither its database nor its access controller is watched, unless
-- it is held open.
clean_up-unwatches :
    (l : Locals) (b : Text) (s : Service)
    → (text_eq l.db_address b || is_named b l.acl_address) ≡ true
    → Map.has b (clean_up l s).event_handlers ≡ true
    → Map.has b (clean_up l s).pinned_open_databases ≡ true
clean_up-unwatches l b s named watched =
    rw (clean_up_pinned l s)
      (unwatches_named l.acl_address l.db_address b s named (rw (clean_up_watched l s) at watched))
