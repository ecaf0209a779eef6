-- ===== src/Chain/EventSource.antt =====
-- chain/event-source.ts: the deduplication of the fetched events.
pub mod Ordered
use lumengate.Prelude.{Bool, true, false, List, [], ◌∷◌, leb, if◌then◌else◌}
use Prim.Native.String.{String}
use text.Mathlib.Text.{◌==◌ as str_eq}
use lumengate.Chain.Events.{ConfidentialEvent, base}

-- `byId.has`, on the keys of the map.
unfoldable pub has : List String → String → Bool
has [] id = false
has (key ∷ keys) id = if str_eq key id then true else has keys id

module _ {Point : Type 0} where
  -- The values of the map in insertion order: the first event of each id.
  unfoldable pub first_by_id :
      List String → List (ConfidentialEvent Point) → List (ConfidentialEvent Point)
  first_by_id keys [] = []
  first_by_id keys (ev ∷ events) =
      let id = (base ev).cursor in
      let later = first_by_id (if has keys id then keys else id ∷ keys) events in
      if has keys id then later else ev ∷ later

  unfoldable pub insert_by_ledger :
      ConfidentialEvent Point → List (ConfidentialEvent Point) → List (ConfidentialEvent Point)
  insert_by_ledger ev [] = ev ∷ []
  insert_by_ledger ev (other ∷ events) =
      let later = insert_by_ledger ev events in
      if leb (base ev).ledger (base other).ledger then ev ∷ other ∷ events else other ∷ later

  -- `sort((a, b) => a.ledger - b.ledger)`, which is stable.
  unfoldable pub sort_by_ledger : List (ConfidentialEvent Point) → List (ConfidentialEvent Point)
  unfolding insert_by_ledger
  sort_by_ledger [] = []
  sort_by_ledger (ev ∷ events) = insert_by_ledger ev (sort_by_ledger events)

  unfoldable pub dedupe_by_id : List (ConfidentialEvent Point) → List (ConfidentialEvent Point)
  unfolding first_by_id sort_by_ledger
  dedupe_by_id events = sort_by_ledger (first_by_id [] events)
