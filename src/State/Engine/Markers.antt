-- ===== src/State/Engine/Markers.antt =====
-- Optimistic markers, and the events that they meet.
use lumengate.Prelude.{
  ◌≡◌, refl, ap, inl, inr, true, false, none, some, List, [], ◌∷◌, ◌++◌, arith, if◌then◌else◌,
  Bool-cases, ◌+ℤ◌, ℤ,
}
use lumengate.Prelude.Result.{Result, ok, ok_inj}
use Prim.Native.String.{String}
use text.Mathlib.Text.{◌==◌ as str_eq}
use text.Mathlib.TextEquality.{eq_iff}
use text.Mathlib.TextPositions.{eq_refl}
use mathlib.Core.Path.{subst}
use lumengate.Crypto.Poseidon.{Poseidon}
use lumengate.Crypto.Grumpkin.{Curve}
use lumengate.Crypto.Keys.{KeyPair}
use lumengate.Chain.Events.{ConfidentialEvent, base}
use lumengate.State.Types.{AccountState}
use lumengate.State.Apply.{includes, is_optimistic, merged, reach_ledger, apply}
use lumengate.State.Engine.{
  StateEngineConfig, unique, mark_optimistic, current, current_state, credit_receiving,
  apply_merge_local,
}
use lumengate.State.Engine.Actions.{World}

includes-last : (hashes : List String) (h : String) → includes (hashes ++ h ∷ []) h ≡ true
unfolding includes
includes-last [] h = ground (arith, eq_refl h)
includes-last (x ∷ hashes) h = ground (arith, includes-last hashes h)

-- What was seen stays.
includes-append :
    (hashes more : List String) (h : String)
    → includes hashes h ≡ true
    → includes (hashes ++ more) h ≡ true
unfolding includes
includes-append [] more h e = cc
includes-append (x ∷ hashes) more h e = ground (arith, includes-append hashes more h)

includes-unique-seen :
    (seen hashes : List String) (h : String)
    → includes seen h ≡ true
    → includes (unique seen hashes) h ≡ true
unfolding unique
includes-unique-seen seen [] h e = e
includes-unique-seen seen (x ∷ hashes) h e = elim (Bool-cases (includes seen x)) [
  | inl y ↦ rw y (includes-unique-seen seen hashes h e)
  | inr n ↦
      rw n (includes-unique-seen (seen ++ x ∷ []) hashes h (includes-append seen (x ∷ []) h e))
]

seen_now :
    (seen : List String) (x h : String)
    → x ≡ h
    → includes (if includes seen x then seen else seen ++ x ∷ []) h ≡ true
seen_now seen x h e = elim (Bool-cases (includes seen x)) [
  | inl y ↦ rw y (rw e at y)
  | inr n ↦ rw (n, e) (includes-last seen h)
]

includes-unique :
    (seen hashes : List String) (h : String)
    → includes hashes h ≡ true
    → includes (unique seen hashes) h ≡ true
unfolding unique includes
includes-unique seen [] h e = cc
includes-unique seen (x ∷ hashes) h e = elim (Bool-cases (str_eq x h)) [
  | inl same ↦
      let is_h : x ≡ h = (eq_iff x h).0 same in
      includes-unique-seen _ hashes h (seen_now seen x h is_h)
  | inr other ↦
      includes-unique (if includes seen x then seen else seen ++ x ∷ []) hashes h (rw other at e)
]

-- A transaction whose marker was set.
pub mark_optimistic-is_optimistic :
    (s : AccountState) (h : String)
    → str_eq h "" ≡ false
    → is_optimistic (mark_optimistic (some h) s) h ≡ true
unfolding mark_optimistic
mark_optimistic-is_optimistic s h named =
    let old : List String = elim s.optimistic_tx_hashes [ none ↦ [] | some hashes ↦ hashes ] in
    rw named (includes-unique [] (old ++ h ∷ []) h (includes-last old h))

module _ {Point : Type 0} ⦃P : Poseidon⦄ ⦃C : Curve Point⦄ where
  marked-apply :
      (keys : KeyPair Point) (s : AccountState) (h : String) (ev : ConfidentialEvent Point)
      → str_eq h "" ≡ false
      → (base ev).tx_hash ≡ h
      → apply keys (mark_optimistic (some h) s) ev
        ≡ ok (reach_ledger (base ev).ledger (mark_optimistic (some h) s))
  unfolding apply
  marked-apply keys s h ev named e = rw (e, mark_optimistic-is_optimistic s h named) refl

  -- After creditReceiving, and after applyMergeLocal, with a transaction hash that is not
  -- empty, an event of that transaction leaves the saved state as it is, but for the ledger
  -- that it reaches: what was credited optimistically is not credited again while the marker
  -- stands.
  pub apply-mark_optimistic :
      (cfg : StateEngineConfig Point) (amount : ℤ) (h : String) (ev : ConfidentialEvent Point)
      (w : World) {s s' : AccountState} {w1 w2 : World}
      → str_eq h "" ≡ false
      → (base ev).tx_hash ≡ h
      → credit_receiving cfg amount (some h) w ≡ (ok s, w1)
      → apply_merge_local cfg (some h) w ≡ (ok s', w2)
      → (apply cfg.keys s ev ≡ ok (reach_ledger (base ev).ledger s))
        × (apply cfg.keys s' ev ≡ ok (reach_ledger (base ev).ledger s'))
  unfolding credit_receiving apply_merge_local current
  apply-mark_optimistic cfg amount h ev w {s} {s'} named e credited merging =
      let SkipsEvent : AccountState → Type 0 =
        λ x. apply cfg.keys x ev ≡ ok (reach_ledger (base ev).ledger x) in
      let now = current_state cfg w in
      let credit = record now {
        receiving = record { v = now.receiving.v +ℤ amount; r = now.receiving.r };
      } in
      (
        subst SkipsEvent (ok_inj (ap (λ (p : Result AccountState × World). p.0) credited))
            (marked-apply cfg.keys credit h ev named e),
        subst SkipsEvent (ok_inj (ap (λ (p : Result AccountState × World). p.0) merging))
            (marked-apply cfg.keys (merged now) h ev named e),
      )
