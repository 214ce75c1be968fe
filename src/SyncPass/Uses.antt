-- ===== src/SyncPass/Uses.antt =====
-- The use counts of src/services/database.ts after a sync pass.
use orbitdb_relay.Prelude.{
  List, ◌||◌, true, ==_iff, ℕ, ◌+◌, ◌-◌, Text, text_eq, text_eq_iff, text_eq_refl, Bool, false,
  Option, none, some, ◌≡◌, refl, ap, ◌∙◌, arith, not, if◌then◌else◌, ◌&&◌, get_or,
}
use orbitdb_relay.Prelude.Map
use orbitdb_relay.Retention.{count_use, release_open_database}
use orbitdb_relay.Service.{Service, Db}
use orbitdb_relay.Snapshot.{Snapshot}
use orbitdb_relay.Proofs.{record_sync_proof}
use orbitdb_relay.Watch.{watch_database_updates, unwatch_database_updates, is_instance}
use orbitdb_relay.SyncPass.{
  Locals, hold_open, hold_controller, conclude, note_failure, has_replicated_state, unwatch_unheld,
  unwatch_controller, release_unheld, release_controller, clean_up,
}
use orbitdb_relay.SyncPass.Held.{
  is_named, shows_state, has_replicated_state_lem, unwatch_unheld_pinned, unwatch_controller_pinned,
}

abbrev pub uses : Text → Service → ℕ
uses a s = get_or (Map.get a s.database_use_counts) 0

-- Whether `release_unheld` releases.
abbrev gives_back : Text → Option Db → Service → Bool
gives_back a none s = false
gives_back a (some db) s = not (is_instance db (Map.get a s.pinned_open_databases))

release_unheld-uses :
    (a b : Text) (db : Option Db) (s : Service)
    → uses b (release_unheld a db s).1
      ≡ (if text_eq a b && gives_back a db s then uses b s - 1 else uses b s)
unfolding release_unheld release_open_database
release_unheld-uses a b none s = ground arith
release_unheld-uses a b (some db) s = ground (
  arith,
  text_eq_iff a b,
  Map.get-set b a (uses a s - 1) s.database_use_counts,
  Map.get-delete b a s.database_use_counts,
)

release_controller-uses :
    (acl : Option Text) (acl_db db : Option Db) (b : Text) (s : Service)
    → is_named b acl ≡ false
    → uses b (release_controller acl acl_db db s).1 ≡ uses b s
unfolding release_controller
release_controller-uses (some a) (some acl_db) db b s apart =
    ground (arith, apart, release_unheld-uses a b (some acl_db) s)
release_controller-uses (some a) none db b s apart = refl
release_controller-uses none acl_db db b s apart = refl

unwatch_unheld-uses : (a b : Text) (s : Service) → uses b (unwatch_unheld a s) ≡ uses b s
unfolding unwatch_unheld unwatch_database_updates
unwatch_unheld-uses a b s = ground arith

unwatch_controller-uses :
    (acl : Option Text) (a b : Text) (s : Service) → uses b (unwatch_controller acl a s) ≡ uses b s
unfolding unwatch_controller
unwatch_controller-uses none a b s = refl
unwatch_controller-uses (some acl) a b s = ground (arith, unwatch_unheld-uses acl b s)

given_back :
    (a : Text) (db : Db) (s : Service) (n : ℕ) (own : Option Db) (u : Service)
    → own ≡ some db
    → u.pinned_open_databases ≡ s.pinned_open_databases
    → uses a u ≡ n + 1
    → (if text_eq a a && gives_back a own u then uses a u - 1 else uses a u)
      ≡ (if is_instance db (Map.get a s.pinned_open_databases) then n + 1 else n)
given_back a db s n none u e same counted = cc
given_back a db s n (some d) u e same counted = ground (arith, e, same, counted, text_eq_refl a)

cleaned_uses :
    (l : Locals) (db : Db) (n : ℕ) (t : Service)
    → l.db ≡ some db
    → is_named l.db_address l.acl_address ≡ false
    → uses l.db_address t ≡ n + 1
    → uses l.db_address (clean_up l t)
      ≡ (if is_instance db (Map.get l.db_address t.pinned_open_databases) then n + 1 else n)
unfolding clean_up
cleaned_uses l db n t e apart counted =
    let a = l.db_address in
    let u = unwatch_controller l.acl_address a (unwatch_unheld a t) in
    release_controller-uses l.acl_address l.acl_db l.db a (release_unheld a l.db u).1 apart
    ∙ release_unheld-uses a a l.db u
    ∙ given_back a db t n l.db u e
        (unwatch_controller_pinned l.acl_address a _ ∙ unwatch_unheld_pinned a t)
        (unwatch_controller-uses l.acl_address a a (unwatch_unheld a t)
          ∙ unwatch_unheld-uses a a t
          ∙ counted)

counted_use : (a : Text) (s : Service) → uses a (count_use a s) ≡ uses a s + 1
unfolding count_use
counted_use a s = ap (λ n. get_or n 0) (Map.get-set_self a (uses a s + 1) s.database_use_counts)

module _ (has_events : Db → Bool) where
  hold_open_counts :
      (a : Text) (db : Db) (s : Service)
      → (hold_open has_events a db s).database_use_counts ≡ s.database_use_counts
  unfolding hold_open watch_database_updates unwatch_database_updates
  hold_open_counts a db s = ground arith

  get-hold_open :
      (a b : Text) (db : Db) (s : Service)
      → Map.get b (hold_open has_events a db s).pinned_open_databases
        ≡ (if text_eq a b then some db else Map.get b s.pinned_open_databases)
  unfolding hold_open watch_database_updates unwatch_database_updates
  get-hold_open a b db s = ground (arith, Map.get-set b a db s.pinned_open_databases)

  hold_controller_counts :
      (acl : Option Text) (acl_db : Option Db) (s : Service)
      → (hold_controller has_events acl acl_db s).database_use_counts ≡ s.database_use_counts
  unfolding hold_controller
  hold_controller_counts (some a) (some db) s = hold_open_counts a db s
  hold_controller_counts (some a) none s = refl
  hold_controller_counts none acl_db s = refl

  get-hold_controller :
      (acl : Option Text) (acl_db : Option Db) (b : Text) (s : Service)
      → is_named b acl ≡ false
      → Map.get b (hold_controller has_events acl acl_db s).pinned_open_databases
        ≡ Map.get b s.pinned_open_databases
  unfolding hold_controller
  get-hold_controller (some a) (some db) b s apart = ground (arith, apart, get-hold_open a b db s)
  get-hold_controller (some a) none b s apart = refl
  get-hold_controller none acl_db b s apart = refl

  conclude_counts :
      (l : Locals) (db : Db) (replicated : Bool) (now : ℕ) (snapshot : Snapshot) (s : Service)
      → (let t =
            conclude has_events l.db_address db l.acl_address l.acl_db replicated now snapshot s in
          t.database_use_counts ≡ s.database_use_counts)
  unfolding conclude record_sync_proof
  conclude_counts l db true now snapshot s =
      hold_controller_counts l.acl_address l.acl_db _
      ∙ hold_open_counts l.db_address db (record_sync_proof s l.db_address now snapshot)
  conclude_counts l db false now snapshot s = refl

  conclude_instance :
      (l : Locals) (db : Db) (replicated : Bool) (now : ℕ) (snapshot : Snapshot) (s : Service)
      → is_named l.db_address l.acl_address ≡ false
      → (let t =
            conclude has_events l.db_address db l.acl_address l.acl_db replicated now snapshot s in
          is_instance db (Map.get l.db_address t.pinned_open_databases)
          ≡ (replicated || is_instance db (Map.get l.db_address s.pinned_open_databases)))
  unfolding conclude record_sync_proof
  conclude_instance l db true now snapshot s apart =
      let proven = record_sync_proof s l.db_address now snapshot in
      rw
        (
          get-hold_controller l.acl_address l.acl_db l.db_address
              (hold_open has_events l.db_address db proven) apart,
          get-hold_open l.db_address l.db_address db proven,
          text_eq_refl l.db_address,
        )
        (ground (arith, ==_iff db db))
  conclude_instance l db false now snapshot s apart = refl

-- The use count of the address of a database, after a pass that retained it as the instance `db`
-- and whose access controller is at another address, when no other call changes the counts
-- meanwhile. If the pass came to its end, the count is one higher than before it exactly if `db`
-- was held open already or the pass found contents, as it then holds `db` open, and unchanged
-- otherwise. If the pass failed before, it is one higher exactly if `db` was held open already.
pub clean_up-uses :
    (has_events : Db → Bool) (l : Locals) (db : Db) (received_update : Bool) (cids : List Text)
    (now : ℕ) (snapshot : Snapshot) (s : Service)
    → l.db ≡ some db
    → is_named l.db_address l.acl_address ≡ false
    → (uses l.db_address (
          clean_up l (
            conclude has_events l.db_address db l.acl_address l.acl_db
              (has_replicated_state snapshot received_update cids)
              now
              snapshot
              (count_use l.db_address s)))
        ≡ (if shows_state snapshot received_update cids
              || is_instance db (Map.get l.db_address s.pinned_open_databases)
            then uses l.db_address s + 1
            else uses l.db_address s))
      × (uses l.db_address (clean_up l (note_failure (count_use l.db_address s))) ≡ (
          if is_instance db (Map.get l.db_address s.pinned_open_databases)
          then uses l.db_address s + 1
          else uses l.db_address s))
unfolding count_use note_failure
clean_up-uses has_events l db received_update cids now snapshot s e apart =
    let a = l.db_address in
    let n = uses a s in
    let replicated = has_replicated_state snapshot received_update cids in
    let t = count_use a s in
    let found = conclude has_events a db l.acl_address l.acl_db replicated now snapshot t in
    (
      cleaned_uses l db n found e apart (
            ap (λ counts. get_or (Map.get a counts) 0)
              (conclude_counts has_events l db replicated now snapshot t)
            ∙ counted_use a s)
          ∙ ap (λ b. if b then n + 1 else n)
              (conclude_instance has_events l db replicated now snapshot t apart
                ∙ ap (λ b. b || is_instance db (Map.get a s.pinned_open_databases))
                    (has_replicated_state_lem snapshot received_update cids)),
      cleaned_uses l db n (note_failure t) e apart (counted_use a s),
    )
