-- ===== src/Chain/Resolve.antt =====
-- chain/events.ts and chain/indexer.ts, `resolveEventRef`, and chain/event-source.ts,
-- `hybridResolveEventRef`. What the RPC and the indexer answer, parsed, is a parameter.
use lumengate.Prelude.{
  ℕ, ◌+◌, ◌≡◌, ap, inl, inr, Bool, false, Option, none, some, List, [], ◌∷◌, if◌then◌else◌,
  Bool-cases, All,
}
use lumengate.Prelude.Result.{Result, ok, err, ◌>>=◌, err, >>=-eq-ok, ok_inj}
use Prim.Native.String.{String}
use text.Mathlib.Text.{◌==◌ as str_eq}
use text.Mathlib.TextEquality.{eq_iff}
use mathlib.Core.Path.{subst}
use lumengate.Chain.Events.{ConfidentialEvent, base}

pub record EventRef : Type 0 where
  pub ledger : ℕ
  pub id : String
  pub tx_hash : String

abbrev pub event_ref : {Point : Type 0} → ConfidentialEvent Point → EventRef
event_ref ev = record {
  ledger = (base ev).ledger;
  id = (base ev).cursor;
  tx_hash = (base ev).tx_hash;
}

-- What a source has of the ledgers from the first to the last: an entry that is no event of the
-- token parses to `none`. `err` also stands for an entry that does not parse.
pub record Source (Point : Type 0) : Type 0 where
  pub events_between : ℕ → ℕ → Result (List (Option (ConfidentialEvent Point)))

module _ {Point : Type 0} where
  -- `ev !== null && ev.cursor === ref.id`.
  abbrev is_match : String → Option (ConfidentialEvent Point) → Bool
  is_match id none = false
  is_match id (some ev) = str_eq (base ev).cursor id

  unfoldable pub matches :
      String → List (Option (ConfidentialEvent Point)) → List (ConfidentialEvent Point)
  matches id [] = []
  matches id (none ∷ entries) = matches id entries
  matches id (some ev ∷ entries) =
      let rest = matches id entries in if is_match id (some ev) then ev ∷ rest else rest

  -- `ev.txHash !== ref.txHash ? null : ev`.
  abbrev of_transaction : EventRef → ConfidentialEvent Point → Option (ConfidentialEvent Point)
  of_transaction ref ev = if str_eq (base ev).tx_hash ref.tx_hash then some ev else none

  abbrev pub the_only : EventRef → List (ConfidentialEvent Point) → Option (ConfidentialEvent Point)
  the_only ref (ev ∷ []) = of_transaction ref ev
  the_only ref events = none

  abbrev pub the_first :
      EventRef → List (ConfidentialEvent Point) → Option (ConfidentialEvent Point)
  the_first ref [] = none
  the_first ref (ev ∷ events) = of_transaction ref ev

  -- On the RPC: exactly one entry has the id.
  unfoldable pub resolve_event_ref :
      Source Point → EventRef → Result (Option (ConfidentialEvent Point))
  unfolding matches
  resolve_event_ref rpc ref = do
    entries ← rpc.events_between ref.ledger (ref.ledger + 1)
    ok (the_only ref (matches ref.id entries))

  -- On the indexer: the first entry that has the id.
  unfoldable pub resolve_indexed :
      Source Point → EventRef → Result (Option (ConfidentialEvent Point))
  unfolding matches
  resolve_indexed indexer ref = do
    entries ← indexer.events_between ref.ledger ref.ledger
    ok (the_first ref (matches ref.id entries))

  -- `.catch(() => null)`.
  abbrev or_null : Result (Option (ConfidentialEvent Point)) → Option (ConfidentialEvent Point)
  or_null (ok found) = found
  or_null (err e) = none

  abbrev fall_back :
      Option (ConfidentialEvent Point)
      → Option (Source Point)
      → EventRef
      → Option (ConfidentialEvent Point)
  fall_back (some ev) indexer ref = some ev
  fall_back none none ref = none
  fall_back none (some indexer) ref = or_null (resolve_indexed indexer ref)

  unfoldable pub hybrid_resolve_event_ref :
      Source Point → Option (Source Point) → EventRef → Option (ConfidentialEvent Point)
  unfolding resolve_event_ref resolve_indexed
  hybrid_resolve_event_ref rpc indexer ref =
      fall_back (or_null (resolve_event_ref rpc ref)) indexer ref

  -- The event is the one that the reference names.
  abbrev pub IsNamedBy : EventRef → ConfidentialEvent Point → Type 0
  IsNamedBy ref ev = ((base ev).cursor ≡ ref.id) × ((base ev).tx_hash ≡ ref.tx_hash)

  matches-All :
      (id : String) (entries : List (Option (ConfidentialEvent Point)))
      → All (λ ev. (base ev).cursor ≡ id) (matches id entries)
  unfolding matches
  matches-All id [] = tt
  matches-All id (none ∷ entries) = matches-All id entries
  matches-All id (some ev ∷ entries) = elim (Bool-cases (str_eq (base ev).cursor id)) [
    | inl y ↦ rw y ((eq_iff (base ev).cursor id).0 y, matches-All id entries)
    | inr n ↦ rw n (matches-All id entries)
  ]

  of_transaction-IsNamedBy :
      (ref : EventRef) (ev found : ConfidentialEvent Point)
      → (base ev).cursor ≡ ref.id
      → of_transaction ref ev ≡ some found
      → IsNamedBy ref found
  of_transaction-IsNamedBy ref ev found same h =
      elim (Bool-cases (str_eq (base ev).tx_hash ref.tx_hash)) [
        | inl y ↦
            let e : some ev ≡ some found = rw y at h in
            let e' : ev ≡ found = cc in
            subst (λ x. IsNamedBy ref x) e' (same, (eq_iff (base ev).tx_hash ref.tx_hash).0 y)
        | inr n ↦ let e : none ≡ some found = rw n at h in cc
      ]

  the_only-IsNamedBy :
      (ref : EventRef) (found : ConfidentialEvent Point) (events : List (ConfidentialEvent Point))
      → All (λ ev. (base ev).cursor ≡ ref.id) events
      → the_only ref events ≡ some found
      → IsNamedBy ref found
  the_only-IsNamedBy ref found [] h e = cc
  the_only-IsNamedBy ref found (ev ∷ []) (same, h) e = of_transaction-IsNamedBy ref ev found same e
  the_only-IsNamedBy ref found (ev ∷ other ∷ events) h e = cc

  the_first-IsNamedBy :
      (ref : EventRef) (found : ConfidentialEvent Point) (events : List (ConfidentialEvent Point))
      → All (λ ev. (base ev).cursor ≡ ref.id) events
      → the_first ref events ≡ some found
      → IsNamedBy ref found
  the_first-IsNamedBy ref found [] h e = cc
  the_first-IsNamedBy ref found (ev ∷ events) (same, h) e =
      of_transaction-IsNamedBy ref ev found same e

  or_null-some :
      (r : Result (Option (ConfidentialEvent Point))) (found : ConfidentialEvent Point)
      → or_null r ≡ some found
      → r ≡ ok (some found)
  or_null-some (ok (some ev)) found h = ap ok h
  or_null-some (ok none) found h = cc
  or_null-some (err e) found h = cc

  by_rpc :
      (rpc : Source Point) (ref : EventRef) (found : ConfidentialEvent Point)
      → or_null (resolve_event_ref rpc ref) ≡ some found
      → IsNamedBy ref found
  unfolding resolve_event_ref
  by_rpc rpc ref found h =
      let (entries, read, last) =
        >>=-eq-ok (rpc.events_between ref.ledger (ref.ledger + 1)) _
          (or_null-some (resolve_event_ref rpc ref) found h) in
      the_only-IsNamedBy ref found (matches ref.id entries) (matches-All ref.id entries)
        (ok_inj last)

  by_indexer :
      (indexer : Source Point) (ref : EventRef) (found : ConfidentialEvent Point)
      → or_null (resolve_indexed indexer ref) ≡ some found
      → IsNamedBy ref found
  unfolding resolve_indexed
  by_indexer indexer ref found h =
      let (entries, read, last) =
        >>=-eq-ok (indexer.events_between ref.ledger ref.ledger) _
          (or_null-some (resolve_indexed indexer ref) found h) in
      the_first-IsNamedBy ref found (matches ref.id entries) (matches-All ref.id entries)
        (ok_inj last)

  fall_back-IsNamedBy :
      (first : Option (ConfidentialEvent Point)) (indexer : Option (Source Point)) (ref : EventRef)
      (found : ConfidentialEvent Point)
      → ((ev : ConfidentialEvent Point) → first ≡ some ev → IsNamedBy ref ev)
      → fall_back first indexer ref ≡ some found
      → IsNamedBy ref found
  fall_back-IsNamedBy (some ev) indexer ref found named h = named found h
  fall_back-IsNamedBy none none ref found named h = cc
  fall_back-IsNamedBy none (some indexer) ref found named h = by_indexer indexer ref found h

  -- An event that hybridResolveEventRef returns, from the RPC or from the indexer, has the id
  -- and the transaction hash of the reference.
  pub hybrid_resolve_event_ref-IsNamedBy :
      (rpc : Source Point) (indexer : Option (Source Point)) (ref : EventRef)
      (found : ConfidentialEvent Point)
      → hybrid_resolve_event_ref rpc indexer ref ≡ some found
      → IsNamedBy ref found
  unfolding hybrid_resolve_event_ref
  hybrid_resolve_event_ref-IsNamedBy rpc indexer ref found h =
      fall_back-IsNamedBy (or_null (resolve_event_ref rpc ref)) indexer ref found (by_rpc rpc ref) h
