-- ===== src/OnDemand/Tests.antt =====
-- An on-demand exchange and the gateway of src/services/database.ts on a known database.
use orbitdb_relay.Prelude.{
  ℕ, ◌*◌, ltb, if◌then◌else◌, Text, codes, true, false, Option, none, some, [], ◌∷◌, ◌≡◌, arith,
}
use orbitdb_relay.Service.{Service, Db, new_service}
use orbitdb_relay.SyncPass.Uses.{uses}
use orbitdb_relay.Waits.Laws.{Stops}
use orbitdb_relay.OnDemand.{
  Served, Exchange, open_gives, throws, handle_on_demand_heads_protocol, LocalNode, file,
}
use orbitdb_relay.OnDemand.Laws.{is_found, uses_after, opened_for, handle_on_demand-uses}

abbrev a : Text
a = codes "/orbitdb/a"

abbrev service : Service
service = record new_service { known_databases_by_address = a ∷ [] }

-- The handler is registered at the third look, and throws.
abbrev meets_failure : Exchange ℕ
meets_failure = record {
  dials = true;
  opened = open_gives 4;
  rounds = record { elapsed = λ i. i * 50; is_shutting_down = λ i. false };
  look_up = λ i. if ltb 1 i then some 9 else none;
  runs = λ handler. throws;
  meanwhile = λ s. s;
}

handle_on_demand-uses_example :
    (j : ℕ) × (r : Served × (Option Db × Service)) × Stops (is_found meets_failure) 0 j
    × (handle_on_demand_heads_protocol 101 meets_failure (codes "/orbitdb/heads/orbitdb/a") service
        ≡ some r)
    × (uses a r.1.1
        ≡ uses_after meets_failure j a service
            (opened_for meets_failure (codes "/orbitdb/heads/orbitdb/a") service))
handle_on_demand-uses_example =
    handle_on_demand-uses 101 meets_failure (codes "/orbitdb/heads/orbitdb/a") a service
      (λ i. omega arith) (omega arith)

abbrev node : LocalNode ℕ
node = record {
  is_available = true;
  is_cid = λ cid. true;
  is_pinned = λ cid. some true;
  stat_offline = λ cid path. some file;
  cat_offline = λ cid path. 5;
  block_offline = λ cid. none;
}
