-- ===== src/OnDemand/Laws.antt =====
-- Theorems about the on-demand exchange and the gateway of src/services/database.ts.
use orbitdb_relay.Prelude.{
  ℕ, leb, not, ◌||◌, ap, ◌∙◌, ◌-◌, ◌<◌, Text, text_eq, text_eq_iff, Bool, true, false, Option, none,
  some, ◌&&◌, if◌then◌else◌, is_some, get_or, ◌≡◌, refl, arith, inl, inr, Bool-cases, Option-cases,
}
use orbitdb_relay.Prelude.Map
use orbitdb_relay.Prelude.TextSet
use orbitdb_relay.Addresses.{db_address_from_heads_protocol}
use orbitdb_relay.Retention.{count_use, release_open_database}
use orbitdb_relay.Service.{Service, Db}
use orbitdb_relay.SyncPass.Uses.{uses}
use orbitdb_relay.Waits.{goes_on, stops_looking, wait_for_registered_heads_handler}
use orbitdb_relay.Waits.Laws.{IsTimed, Stops, Stops-same, looks_up}
use orbitdb_relay.OnDemand.{
  Served, unknown_protocol, open_fails, no_handler, still_dials, still_opens, Opening, open_gives,
  open_throws, open_hangs, Ran, returns, throws, hangs, end_run, end_exchange, Exchange,
  on_demand_heads_handler_timeout_ms, exchange, handle_on_demand_heads_protocol, Entry, directory,
  file, LocalNode, Streamed, streams, refuses, stream_pinned_ipfs_content,
}

release-uses :
    (a b : Text) (db : Db) (s : Service)
    → uses b (release_open_database a db s).1 ≡ (if text_eq a b then uses b s - 1 else uses b s)
unfolding release_open_database
release-uses a b db s = ground (
  arith,
  text_eq_iff a b,
  Map.get-set b a (uses a s - 1) s.database_use_counts,
  Map.get-delete b a s.database_use_counts,
)

abbrev pub is_streamed : {Chunks : Type 0} → Streamed Chunks → Bool
is_streamed (streams chunks) = true
is_streamed (refuses status error) = false

abbrev pub has_opened : Opening → Bool
has_opened (open_gives db) = true
has_opened _ = false

end_run-uses :
    (ran : Ran) (a b : Text) (db : Db) (met : Service)
    → uses b (end_run ran a db met).1.1 ≡ (
        if text_eq a b && not (elim ran [ returns ↦ false | throws ↦ false | hangs ↦ true ])
        then uses b met - 1
        else uses b met)
end_run-uses returns a b db met = ground (arith, release-uses a b db met)
end_run-uses throws a b db met = ground (arith, release-uses a b db met)
end_run-uses hangs a b db met = ground arith

module _ {Handler : Type 0} where
  -- The database that an exchange opens: the one that the protocol names, if it is known, the dial
  -- comes back, and it opens.
  abbrev pub opened_at : Exchange Handler → Service → Option Text → Option Text
  opened_at x service none = none
  opened_at x service (some a) =
      if TextSet.has a service.known_databases_by_address && x.dials && has_opened x.opened
      then some a
      else none

  abbrev pub opened_for : Exchange Handler → Text → Service → Option Text
  opened_for x protocol service = opened_at x service (db_address_from_heads_protocol protocol)

  -- The service shuts down, or the 5 seconds for the look-up have passed.
  abbrev pub gives_up : Exchange Handler → ℕ → Bool
  gives_up x i = x.rounds.is_shutting_down i || leb 5000 (x.rounds.elapsed i)

  -- The look-up is over.
  abbrev pub is_found : Exchange Handler → ℕ → Bool
  is_found x i = is_some (x.look_up i) || gives_up x i

  -- Whether the handler, if it is the one that the look-up finds in this round, never comes back.
  abbrev pub never_returns : Exchange Handler → Option Handler → Bool
  never_returns x none = false
  never_returns x (some handler) = elim (x.runs handler) [
    | returns ↦ false
    | throws ↦ false
    | hangs ↦ true
  ]

  abbrev pub hangs_in : Exchange Handler → ℕ → Bool
  hangs_in x j = not (gives_up x j) && never_returns x (x.look_up j)

  abbrev pub uses_after : Exchange Handler → ℕ → Text → Service → Option Text → ℕ
  uses_after x j b service none = uses b service
  uses_after x j b service (some a) =
      let met = uses b (x.meanwhile (count_use a service)) in
      if text_eq a b && not (hangs_in x j) then met - 1 else met

  end_exchange-uses :
      (x : Exchange Handler) (a b : Text) (db : Db) (met : Service) (found : Option Handler)
      → (r : Served × (Option Db × Service)) × (end_exchange x a db met (some found) ≡ some r)
        × (uses b r.1.1
            ≡ (if text_eq a b && not (never_returns x found) then uses b met - 1 else uses b met))
  end_exchange-uses x a b db met none =
      ((no_handler, release_open_database a db met), refl, ground (arith, release-uses a b db met))
  end_exchange-uses x a b db met (some handler) =
      (end_run (x.runs handler) a db met, refl, end_run-uses (x.runs handler) a b db met)

  never_returns-goes_on :
      (x : Exchange Handler) (j : ℕ)
      → never_returns x
          (if goes_on x.rounds on_demand_heads_handler_timeout_ms j then x.look_up j else none)
        ≡ hangs_in x j
  never_returns-goes_on x j = ground arith

  stops_looking-is_found :
      (x : Exchange Handler) (i : ℕ)
      → stops_looking x.rounds on_demand_heads_handler_timeout_ms x.look_up i ≡ is_found x i
  stops_looking-is_found x i = ground arith

  -- What an exchange comes to when its look-up ends in round `j`.
  abbrev Comes : ℕ → Exchange Handler → ℕ → Text → Text → Opening → Service → Type 0
  Comes fuel x j a b opened service =
      (r : Served × (Option Db × Service)) × (exchange fuel x a opened service ≡ some r)
      × (uses b r.1.1 ≡ uses_after x j b service (if has_opened opened then some a else none))

  exchange-Comes :
      (fuel : ℕ) (x : Exchange Handler) (j : ℕ) (a b : Text) (opened : Opening) (service : Service)
      → wait_for_registered_heads_handler fuel x.rounds on_demand_heads_handler_timeout_ms x.look_up
        ≡ some (if goes_on x.rounds on_demand_heads_handler_timeout_ms j then x.look_up j else none)
      → Comes fuel x j a b opened service
  unfolding exchange
  exchange-Comes fuel x j a b open_throws service found =
      ((open_fails, (none, service)), refl, refl)
  exchange-Comes fuel x j a b open_hangs service found =
      ((still_opens, (none, service)), refl, refl)
  exchange-Comes fuel x j a b (open_gives db) service found =
      let met = x.meanwhile (count_use a service) in
      let (r, result, counted) =
        end_exchange-uses x a b db met
          (if goes_on x.rounds on_demand_heads_handler_timeout_ms j then x.look_up j else none) in
      (
        r,
        rw found result,
        counted
            ∙ ap (λ stuck. if text_eq a b && not stuck then uses b met - 1 else uses b met)
                (never_returns-goes_on x j),
      )

  -- The use of the database that an on-demand exchange takes. Given fuel for its rounds, whose
  -- delays take 50 ms each at least, the look-up of the handler ends, in the first round in which
  -- the handler is there, 5 seconds have passed or the service shuts down. The exchange gives its
  -- use back where the look-up finds no handler and where the handler throws or returns, and keeps
  -- it where the handler never does. It takes none where the protocol names no known database, the
  -- dial back does not come back, or the open fails or does not come back. The counts that other
  -- calls leave are otherwise unchanged.
  pub handle_on_demand-uses :
      (fuel : ℕ) (x : Exchange Handler) (protocol b : Text) (service : Service)
      → IsTimed x.rounds 50
      → 100 < fuel
      → (j : ℕ) × (r : Served × (Option Db × Service)) × Stops (is_found x) 0 j
        × (handle_on_demand_heads_protocol fuel x protocol service ≡ some r)
        × (uses b r.1.1 ≡ uses_after x j b service (opened_for x protocol service))
  unfolding handle_on_demand_heads_protocol
  handle_on_demand-uses fuel x protocol b service timed enough =
      let (j, found, bound, first) =
        looks_up fuel 100 x.rounds on_demand_heads_handler_timeout_ms x.look_up timed (omega arith)
          enough in
      let over = Stops-same (stops_looking-is_found x) first in
      elim (Option-cases (db_address_from_heads_protocol protocol)) [
        | inl other ↦ (
          j,
          (unknown_protocol, (none, service)),
          over,
          rw (other, handle_on_demand_heads_protocol) refl,
          rw other refl,
        )
        | inr (a, named) ↦ elim (Bool-cases (TextSet.has a service.known_databases_by_address)) [
          | inr unknown ↦ (
            j,
            (unknown_protocol, (none, service)),
            over,
            rw (named, handle_on_demand_heads_protocol, unknown) refl,
            rw (named, unknown) refl,
          )
          | inl known ↦ elim (Bool-cases x.dials) [
            | inr stuck ↦ (
              j,
              (still_dials, (none, service)),
              over,
              rw (named, handle_on_demand_heads_protocol, known, stuck) refl,
              rw (named, known, stuck) refl,
            )
            | inl dialled ↦
                let (r, result, counted) = exchange-Comes fuel x j a b x.opened service found in
                (
                  j,
                  r,
                  over,
                  rw (named, handle_on_demand_heads_protocol, known) (simp dialled result),
                  rw (named, known) (simp dialled counted),
                )
          ]
        ]
      ]

-- Whether the node's own store has the content, given what it says of the path.
abbrev pub is_local :
    {Chunks : Type 0} → LocalNode Chunks → Text → Option Text → Option Entry → Bool
is_local node cid path (some file) = true
is_local node cid path (some directory) = false
is_local node cid none none = is_some (node.block_offline cid)
is_local node cid (some path) none = false

-- The gateway streams a text exactly if the node is there and the text is a pinned CID for which
-- its own store has a file at the path, or, where there is no path, at least the block.
streams_iff :
    {Chunks : Type 0} (node : LocalNode Chunks) (cid : Text) (path : Option Text)
    → is_streamed (stream_pinned_ipfs_content node cid path) ≡ (
        node.is_available
        && node.is_cid cid
        && get_or (node.is_pinned cid) false
        && is_local node cid path (node.stat_offline cid path))
unfolding stream_pinned_ipfs_content
streams_iff node cid path = ground arith
