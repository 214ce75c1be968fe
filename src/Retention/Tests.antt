-- ===== src/Retention/Tests.antt =====
-- Runs of the retentions in src/services/database.ts on concrete calls.
use orbitdb_relay.Prelude.{
  ℕ, Text, true, false, codes, text_eq, Option, some, [], ◌∷◌, ◌++◌, ◌≡◌, refl, ◌↔◌,
}
use orbitdb_relay.Prelude.Map
use orbitdb_relay.Service.{Db}
use orbitdb_relay.Retention.{
  World, Holder, Pending, Reach, here, next, starts, resumes, start_retain, resume_retain,
  release_open_database, open_database, settle_open, count_use,
}
use orbitdb_relay.Retention.Laws.{Inv, Reach-Inv, idle_world, release-closes_iff, holders_at}

abbrev db_a : Text
db_a = codes "/orbitdb/a"

-- Every open gives the instance 7.
abbrev opens_seven : ℕ → Option Db
opens_seven promise = some 7

abbrev first_call : Pending
first_call = record { address = db_a; promise = 0; owner = true }

abbrev second_call : Pending
second_call = record { address = db_a; promise = 0; owner = false }

abbrev user : Holder
user = record { address = db_a; db = 7 }

abbrev one_waits : World
one_waits = start_retain db_a 10 idle_world

abbrev both_wait : World
both_wait = start_retain db_a 20 one_waits

abbrev second_holds : World
second_holds = resume_retain (some 7) second_call (first_call ∷ []) both_wait

abbrev both_hold : World
both_hold = resume_retain (some 7) first_call [] second_holds

-- Two users ask for one database while it opens, and share the open.
both_hold-Reach : Reach opens_seven idle_world both_hold
unfolding start_retain resume_retain open_database settle_open count_use Map.get Map.set text_eq
both_hold-Reach =
    next
      (next (next (next here (starts idle_world db_a 10)) (starts one_waits db_a 20))
        (resumes both_wait [] (first_call ∷ []) second_call refl))
      (resumes second_holds [] [] first_call refl)

use_count : Map.get db_a both_hold.service.database_use_counts ≡ some 2
unfolding start_retain resume_retain open_database settle_open count_use Map.get Map.set Map.delete
    text_eq
use_count = refl

Reach-Inv_example : Inv db_a both_hold
Reach-Inv_example = Reach-Inv opens_seven db_a both_hold-Reach

both_hold-holders : both_hold.holders ≡ [] ++ user ∷ (user ∷ [])
unfolding start_retain resume_retain open_database
both_hold-holders = refl

release-closes_iff_example :
    ((release_open_database db_a 7 both_hold.service).0 ≡ some 7)
    ↔ (holders_at db_a (user ∷ []) ≡ 0)
release-closes_iff_example =
    release-closes_iff opens_seven [] (user ∷ []) user both_hold-Reach both_hold-holders
