-- ===== src/Chain/Hybrid.antt =====
-- chain/event-source.ts: `hybridFetchEvents`, the indexer for what is older than the RPC keeps, and the
-- RPC for the rest. The traces and warnings are left out.
pub mod Contiguous
use lumengate.Prelude.{
  ℕ, ◌+◌, ◌-◌, max, Bool, true, false, not, ◌&&◌, ◌||◌, Option, none, some, List, [], ◌++◌, ltb,
  if◌then◌else◌,
}
use lumengate.Prelude.Result.{Result, ok, err, ◌>>=◌}
use Prim.Native.String.{String}
use lumengate.Chain.Events.{ConfidentialEvent, FetchEventsResult}
use lumengate.Chain.EventSource.{dedupe_by_id}
use lumengate.Chain.Paging.{RpcServer, cursor_ledger, held, fetch_events}

-- `RPC_SEAM_MARGIN`.
abbrev pub rpc_seam_margin : ℕ
rpc_seam_margin = 60

-- `fetchEvents` of an indexer, from the first to the last ledger.
abbrev pub History : Type 0 → Type 0
History Point = ℕ → ℕ → Result (FetchEventsResult Point)

-- `health.oldestLedger ?? 0`, and 0 where the call throws.
unfoldable pub rpc_oldest_ledger : Result (Option ℕ) → ℕ
rpc_oldest_ledger (ok (some oldest)) = oldest
rpc_oldest_ledger (ok none) = 0
rpc_oldest_ledger (err thrown) = 0

-- The first ledger that is still needed.
unfoldable pub next_ledger : ℕ → Option String → Result ℕ
unfolding cursor_ledger
next_ledger from_ledger start_cursor = elim (held start_cursor) [
  | none ↦ ok from_ledger
  | some c ↦ do ledger ← cursor_ledger c; ok (ledger + 1)
]

-- The three branches: the indexer from a ledger up to the seam and the RPC from the seam; the RPC from
-- the stored cursor; the RPC from a ledger that it keeps.
pub data Leg : Type 0 where
  backfill : ℕ → ℕ → Leg
  resume : String → Leg
  clamp : ℕ → Leg

abbrev pub floor_of : ℕ → ℕ → ℕ
floor_of rpc_oldest from_ledger = if ltb 0 rpc_oldest then rpc_oldest + 1 else from_ledger

abbrev pub is_there {ℓ} : {A : Type ℓ} → Option A → Bool
is_there none = false
is_there (some a) = true

abbrev pub choose : Bool → ℕ → ℕ → ℕ → Option String → Leg
choose indexed next rpc_oldest from_ledger cursor =
    if indexed && (ltb 0 rpc_oldest && ltb next rpc_oldest)
    then backfill next (rpc_oldest + rpc_seam_margin)
    else elim cursor [
      | none ↦ clamp (max from_ledger (floor_of rpc_oldest from_ledger))
      | some c ↦ resume c
    ]

module _ {Point : Type 0} where
  -- What the indexer has, or nothing where it throws.
  abbrev pub old_events : Option (History Point) → ℕ → ℕ → List (ConfidentialEvent Point)
  old_events none start finish = []
  old_events (some fetch) start finish = elim (fetch start finish) [
    | ok res ↦ res.events
    | err thrown ↦ []
  ]

  abbrev pub merged :
      List (ConfidentialEvent Point)
      → Option (FetchEventsResult Point)
      → Option (FetchEventsResult Point)
  merged old none = none
  merged old (some recent) = some (record recent { events = dedupe_by_id (old ++ recent.events) })

module _ {Point : Type 0} (indexer : Option (History Point)) where
  unfoldable pub leg_of : Result (Option ℕ) → ℕ → Option String → Result Leg
  unfolding rpc_oldest_ledger next_ledger
  leg_of health from_ledger start_cursor = do
    next ← next_ledger from_ledger start_cursor
    let rpc_oldest =
        if is_there indexer || not (is_there (held start_cursor))
        then rpc_oldest_ledger health
        else 0
    ok (choose (is_there indexer) next rpc_oldest from_ledger (held start_cursor))

module _ {Entry Point : Type 0} (server : RpcServer Entry Point)
    (indexer : Option (History Point)) where
  unfoldable pub fetch_leg : ℕ → Leg → Result (Option (FetchEventsResult Point))
  unfolding fetch_events dedupe_by_id
  fetch_leg fuel (backfill next seam) = do
    recent ← fetch_events server fuel (some seam) none none
    ok (merged (old_events indexer next (seam - 1)) recent)
  fetch_leg fuel (resume c) = do
    recent ← fetch_events server fuel none (some c) none
    ok (merged [] recent)
  fetch_leg fuel (clamp ledger) = do
    recent ← fetch_events server fuel (some ledger) none none
    ok (merged [] recent)

  unfoldable pub hybrid_fetch_events :
      ℕ → Result (Option ℕ) → ℕ → Option String → Result (Option (FetchEventsResult Point))
  unfolding leg_of fetch_leg
  hybrid_fetch_events fuel health from_ledger start_cursor = do
    leg ← leg_of indexer health from_ledger start_cursor
    fetch_leg fuel leg
