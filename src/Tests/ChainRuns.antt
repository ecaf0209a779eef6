-- ===== src/Tests/ChainRuns.antt =====
-- Events of two sources, out of order and with a duplicate.
use lumengate.Prelude.{ℕ, ◌≡◌, refl, List, [], ◌∷◌}
use Prim.Native.String.{String}
use lumengate.Chain.Events.{ConfidentialEvent, merge}
use lumengate.Chain.EventSource.{dedupe_by_id, first_by_id, sort_by_ledger, insert_by_ledger, has}
use lumengate.Chain.EventSource.Ordered.{IsSorted, AreDistinct, dedupe_by_id-AreDistinct}

abbrev in_ledger : ℕ → String → ConfidentialEvent ℕ
in_ledger n id = merge (record { ledger = n; tx_hash = "h"; cursor = id }) "A"

abbrev fetched : List (ConfidentialEvent ℕ)
fetched = in_ledger 5 "b" ∷ in_ledger 4 "a" ∷ in_ledger 5 "b" ∷ in_ledger 5 "c" ∷ []

abbrev kept : List (ConfidentialEvent ℕ)
kept = in_ledger 4 "a" ∷ in_ledger 5 "b" ∷ in_ledger 5 "c" ∷ []

deduped : dedupe_by_id fetched ≡ kept
unfolding dedupe_by_id first_by_id sort_by_ledger insert_by_ledger has
deduped = refl

dedupe_by_id-AreDistinct_example :
    IsSorted (dedupe_by_id fetched)
    × AreDistinct (dedupe_by_id fetched)
    × (dedupe_by_id (dedupe_by_id fetched) ≡ dedupe_by_id fetched)
dedupe_by_id-AreDistinct_example = dedupe_by_id-AreDistinct fetched
