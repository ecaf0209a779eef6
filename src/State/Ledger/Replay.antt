-- ===== src/State/Ledger/Replay.antt =====
-- The replay of an account's events against the contract's ledger: `apply` over a whole history.
use lumengate.Crypto.Poseidon.{Poseidon}
use lumengate.Prelude.{
  ℕ, ◌+◌, ◌≤◌, ◌≡◌, refl, sym, ◌∙◌, ◌≢◌, false, none, List, [], ◌∷◌, arith, pos_part, ℤ,
}
use lumengate.Prelude.Result.{ok}
use Prim.Native.String.{String}
use text.Mathlib.TextPositions.{eq_refl}
use mathlib.Core.Path.{subst, ap₂}
use lumengate.Crypto.Field.{fr_modulus}
use lumengate.Crypto.Poseidon.{PoseidonLaws}
use lumengate.Crypto.Grumpkin.{Curve, CurveLaws, commit}
use lumengate.Crypto.Keys.{KeyPair, derive_keys}
use lumengate.Chain.Events.{base, merge, BaseEvent}
use lumengate.State.Types.{AccountState, fresh_state}
use lumengate.State.Apply.{is_optimistic, merged, apply_effect, apply, apply_all, reach_ledger}
use lumengate.State.Ledger.{
  ChainAccount, Operation, event_of, events_of, effect, effects, Opens, IsHonest, BlindingFits,
  BlindingsFit,
}
use lumengate.State.Ledger.Openings.{commit-zero, commit-fr_add_wrap}
use lumengate.State.Ledger.Step.{Stepped, apply_effect-Opens}

not_optimistic :
    (s : AccountState) (h : String) → s.optimistic_tx_hashes ≡ none → is_optimistic s h ≡ false
not_optimistic s h unmarked = ground arith

reach_ledger-Opens :
    {Point : Type 0} ⦃C : Curve Point⦄ {s : AccountState} {c : ChainAccount Point} (ledger : ℕ)
    → Opens s c
    → Opens (reach_ledger ledger s) c
reach_ledger-Opens ledger o = record {
  spend_v = o.spend_v;
  spend_r = o.spend_r;
  receive_v = o.receive_v;
  receive_r = o.receive_r;
  spend = o.spend;
  receive = o.receive;
}

-- Every operation of a history is honest.
abbrev pub AllHonest :
    {Point : Type 0} ⦃P : Poseidon⦄ ⦃C : Curve Point⦄
    → KeyPair Point
    → String
    → List (Operation Point)
    → Type 0
AllHonest keys me [] = Unit
AllHonest keys me (op ∷ ops) = IsHonest keys me op × AllHonest keys me ops

module _ {Point : Type 0} ⦃P : Poseidon⦄ ⦃C : Curve Point⦄ (PL : PoseidonLaws P) (L : CurveLaws C)
    (sk addr_f : ℤ) where
  apply-Opens :
      (s : AccountState) (c : ChainAccount Point) (op : Operation Point)
      → s.optimistic_tx_hashes ≡ none
      → Opens s c
      → IsHonest (derive_keys sk addr_f) s.address op
      → BlindingFits (derive_keys sk addr_f) s.address s op
      → Stepped s (effect s.address op c) (apply (derive_keys sk addr_f) s (event_of op))
  unfolding apply
  apply-Opens s c op unmarked o h f =
      let st = apply_effect-Opens PL L sk addr_f s c op o h f in
      record {
        next = reach_ledger (base (event_of op)).ledger st.next;
        returned = rw (not_optimistic s (base (event_of op)).tx_hash unmarked, st.returned);
        opens = reach_ledger-Opens (base (event_of op)).ledger st.opens;
        frame = record { address = st.frame.address; markers = st.frame.markers };
      }

  replay-Opens :
      (me : String) (s : AccountState) (c : ChainAccount Point) (ops : List (Operation Point))
      → s.address ≡ me
      → s.optimistic_tx_hashes ≡ none
      → Opens s c
      → AllHonest (derive_keys sk addr_f) me ops
      → BlindingsFit (derive_keys sk addr_f) me s ops
      → (s' : AccountState) × (apply_all (derive_keys sk addr_f) s (events_of ops) ≡ ok s')
        × Opens s' (effects me ops c)
        × (s'.address ≡ me)
  unfolding apply_all
  replay-Opens me s c [] mine unmarked o h f = (s, refl, o, mine)
  replay-Opens me s c (op ∷ ops) mine unmarked o (h, hs) (f, fs) =
      let st = apply-Opens s c op unmarked o (rw mine h) (rw mine f) in
      let (s', e, o', mine') =
        replay-Opens me st.next (effect me op c) ops (st.frame.address ∙ mine)
          (st.frame.markers ∙ unmarked) (subst (λ m. Opens st.next (effect m op c)) mine st.opens)
          hs (fs st.next st.returned) in
      (s', rw st.returned e, o', mine')

  -- From a fresh state and an empty account, the replay of the events of any history of honest
  -- operations succeeds, and the openings that it leaves re-commit to exactly the two
  -- commitments that the contract then stores, as long as no sum of blindings that the replay
  -- makes reaches r.
  pub apply_all-fresh_state-Opens :
      (me : String) (ops : List (Operation Point))
      → AllHonest (derive_keys sk addr_f) me ops
      → BlindingsFit (derive_keys sk addr_f) me (fresh_state me) ops
      → (s : AccountState) × (apply_all (derive_keys sk addr_f) (fresh_state me) (events_of ops)
          ≡ ok s)
        × Opens s (effects me ops (record { spendable = C.infinity; receiving = C.infinity }))
  unfolding fresh_state
  apply_all-fresh_state-Opens me ops h f =
      let (s, e, o, _) =
        replay-Opens me (fresh_state me) _ ops refl refl
          (record {
            spend_v = refl;
            spend_r = omega arith;
            receive_v = refl;
            receive_r = omega arith;
            spend = commit-zero L;
            receive = commit-zero L;
          })
          h f in
      (s, e, o)

module _ {Point : Type 0} ⦃P : Poseidon⦄ ⦃C : Curve Point⦄ (L : CurveLaws C) where
  -- A merge of openings that open the stored commitments, with blindings that add up to r or
  -- more, leaves a spendable opening that does not open the merged commitment.
  pub merge-not_Opens :
      (keys : KeyPair Point) (s : AccountState) (c : ChainAccount Point) (b : BaseEvent)
      → Opens s c
      → s.optimistic_tx_hashes ≡ none
      → fr_modulus ≤ pos_part s.spendable.r + pos_part s.receiving.r
      → (s' : AccountState) × (apply keys s (merge b s.address) ≡ ok s')
        × (commit s'.spendable.v s'.spendable.r ≢ C.add c.spendable c.receiving)
  unfolding apply apply_effect
  merge-not_Opens keys s c b o unmarked wraps = (
    reach_ledger b.ledger (merged s),
    rw (not_optimistic s b.tx_hash unmarked, eq_refl s.address),
    λ same.
        commit-fr_add_wrap L s.spendable.v s.spendable.r s.receiving.v s.receiving.r o.spend_v
          o.spend_r o.receive_v o.receive_r wraps (same ∙ sym (ap₂ C.add o.spend o.receive)),
  )
