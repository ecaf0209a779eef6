-- ===== src/State/Ledger/Step.antt =====
-- One event, against what the contract then stores.
use lumengate.Crypto.Poseidon.{Poseidon}
use lumengate.Prelude.Result.{◌>>=◌}
use lumengate.Prelude.{
  ◌+◌, ◌<◌, ◌≡◌, refl, sym, Bool, true, false, if◌then◌else◌, pos_part, neg_part, ℤ,
}
use lumengate.Prelude.Result.{Result, ok}
use text.Mathlib.Text.{◌==◌ as str_eq}
use lumengate.Crypto.Field.{fr_modulus, IsCanonical}
use lumengate.Crypto.Poseidon.{PoseidonLaws, derive_spend_r, poseidon_with_domain-IsCanonical}
use lumengate.Crypto.Grumpkin.{Curve, CurveLaws, commit}
use lumengate.Crypto.Keys.{KeyPair, derive_keys}
use lumengate.Witness.Withdraw.Laws.{open_spendable-build_withdraw_witness}
use lumengate.Witness.Transfer.Laws.{
  decrypt_incoming-build_transfer_witness, open_spendable-build_transfer_witness, transfer_ranges,
}
use lumengate.Crypto.Field.Reduce.{fr_mod-IsCanonical}
use mathlib.Core.Path.{subst}
use lumengate.State.Types.{Opening, AccountState}
use lumengate.State.Apply.{credited, open_spendable, apply_effect}
use lumengate.State.Ledger.{
  ChainAccount, Operation, registered, deposited, merged_in, withdrawn, transferred, event_of,
  effect, Opens, IsHonest, BlindingFits,
}
use lumengate.State.Ledger.Openings.{merged-Opens, credited-Opens, spent-Opens, deposited-Opens}

-- What `apply` never changes in an event's effect.
pub record SameFrame (s s' : AccountState) : Type 0 where
  pub address : s'.address ≡ s.address
  pub markers : s'.optimistic_tx_hashes ≡ s.optimistic_tx_hashes

module _ {Point : Type 0} ⦃C : Curve Point⦄ where
  -- `r` succeeds with a state that opens `c`, in the frame of `s`.
  pub record Stepped (s : AccountState) (c : ChainAccount Point) (r : Result AccountState)
      : Type 0 where
    pub next : AccountState
    pub returned : r ≡ ok next
    pub opens : Opens next c
    pub frame : SameFrame s next

module _ {Point : Type 0} ⦃P : Poseidon⦄ ⦃C : Curve Point⦄ (PL : PoseidonLaws P) (L : CurveLaws C)
    (sk addr_f : ℤ) where
  abbrev my_keys : KeyPair Point
  my_keys = derive_keys sk addr_f

  same_frame : {s : AccountState} → SameFrame s s
  same_frame = record { address = refl; markers = refl }

  registered-Stepped :
      (b : Bool) {s s' : AccountState} {c : ChainAccount Point}
      → Opens s c
      → Opens s' c
      → SameFrame s s'
      → Stepped s c (ok (if b then s' else s))
  registered-Stepped true o o' f = record { next = _; returned = refl; opens = o'; frame = f }
  registered-Stepped false o o' f = record {
    next = _;
    returned = refl;
    opens = o;
    frame = same_frame;
  }

  if-Stepped :
      (b : Bool) {s s' : AccountState} {c c' : ChainAccount Point}
      → Opens s c
      → (b ≡ true → Opens s' c')
      → SameFrame s s'
      → Stepped s (if b then c' else c) (ok (if b then s' else s))
  if-Stepped true o o' f = record { next = _; returned = refl; opens = o' refl; frame = f }
  if-Stepped false o o' f = record { next = _; returned = refl; opens = o; frame = same_frame }

  -- An opening in range of a commitment.
  record OpensPoint (x : Opening) (point : Point) : Type 0 where
    value : neg_part x.v ≡ 0
    blinding : IsCanonical x.r
    opened : commit x.v x.r ≡ point

  transferred-Stepped :
      (mine to_me : Bool) (s : AccountState) (c : ChainAccount Point) (next tx : Opening)
      (c_new c_tx : Point) (r : Result Opening)
      → Opens s c
      → (mine ≡ true → OpensPoint next c_new)
      → (to_me ≡ true
          → (r ≡ ok tx)
            × OpensPoint tx c_tx
            × (pos_part s.receiving.r + pos_part tx.r < fr_modulus))
      → Stepped s
          (record {
            spendable = if mine then c_new else c.spendable;
            receiving = if to_me then C.add c.receiving c_tx else c.receiving;
          })
          (let s' = if mine then record s { spendable = next } else s in
            if to_me then (do got ← r; ok (credited s' got)) else ok s')
  transferred-Stepped true true s c next tx c_new c_tx r o hm ht =
      let m = hm refl in
      let (e, t, fits) = ht refl in
      record {
        next = credited (record s { spendable = next }) tx;
        returned = rw e;
        opens =
            credited-Opens L tx (spent-Opens L next o m.value m.blinding m.opened) t.value
              t.blinding t.opened fits;
        frame = record { address = refl; markers = refl };
      }
  transferred-Stepped false true s c next tx c_new c_tx r o hm ht =
      let (e, t, fits) = ht refl in
      record {
        next = credited s tx;
        returned = rw e;
        opens = credited-Opens L tx o t.value t.blinding t.opened fits;
        frame = record { address = refl; markers = refl };
      }
  transferred-Stepped true false s c next tx c_new c_tx r o hm ht =
      let m = hm refl in
      record {
        next = record s { spendable = next };
        returned = refl;
        opens = spent-Opens L next o m.value m.blinding m.opened;
        frame = record { address = refl; markers = refl };
      }
  transferred-Stepped false false s c next tx c_new c_tx r o hm ht = record {
    next = s;
    returned = refl;
    opens = o;
    frame = same_frame;
  }

  spend_r-IsCanonical : (vk sigma : ℤ) → IsCanonical (derive_spend_r vk sigma)
  unfolding derive_spend_r
  spend_r-IsCanonical vk sigma = poseidon_with_domain-IsCanonical PL _ _

  open_spendable-OpensPoint :
      (keys : KeyPair Point) (b_tilde sigma v r : ℤ) (point : Point)
      → keys ≡ my_keys
      → open_spendable keys b_tilde sigma ≡ record { v = v; r = r }
      → point ≡ commit v r
      → OpensPoint (open_spendable my_keys b_tilde sigma) point
  unfolding open_spendable
  open_spendable-OpensPoint keys b_tilde sigma v r point mine opened e = record {
    value = (fr_mod-IsCanonical _).0;
    blinding = spend_r-IsCanonical my_keys.vk sigma;
    opened =
        let same : open_spendable my_keys b_tilde sigma ≡ record { v = v; r = r } =
          subst (λ k. open_spendable k b_tilde sigma ≡ record { v = v; r = r }) mine opened in
        subst (λ (x : Opening). commit x.v x.r ≡ point) (sym same) (sym e);
  }

  -- What an honest operation does to the openings is what it does to the commitments.
  pub apply_effect-Opens :
      (s : AccountState) (c : ChainAccount Point) (op : Operation Point)
      → Opens s c
      → IsHonest my_keys s.address op
      → BlindingFits my_keys s.address s op
      → Stepped s (effect s.address op c) (apply_effect my_keys s (event_of op))
  unfolding apply_effect
  apply_effect-Opens s c (registered b account id) o h f =
      registered-Stepped (str_eq account s.address) o
        (record {
          spend_v = o.spend_v;
          spend_r = o.spend_r;
          receive_v = o.receive_v;
          receive_r = o.receive_r;
          spend = o.spend;
          receive = o.receive;
        })
        (record { address = refl; markers = refl })
  apply_effect-Opens s c (deposited b from to amount) o h f =
      if-Stepped (str_eq to s.address) o (λ _. deposited-Opens L amount o h)
        (record { address = refl; markers = refl })
  apply_effect-Opens s c (merged_in b account) o h f =
      if-Stepped (str_eq account s.address) o (λ me. merged-Opens L o (f me))
        (record { address = refl; markers = refl })
  apply_effect-Opens s c (withdrawn b from to p w) o h f =
      if-Stepped (str_eq from s.address) o
        (λ me.
          let (mine, fits, built) = h me in
          let (opened, point, _) =
            open_spendable-build_withdraw_witness p built.0 built.1 w built.2 fits in
          let x = open_spendable-OpensPoint p.keys _ _ _ _ _ mine opened point in
          spent-Opens L _ o x.value x.blinding x.opened)
        (record { address = refl; markers = refl })
  apply_effect-Opens s c (transferred b from to p w) o (built, fits, nonneg, from_me, for_me) f =
      let (amount, r_tx) = transfer_ranges PL L p built.0 w built.1 fits in
      transferred-Stepped (str_eq from s.address) (str_eq to s.address) s c _
        (record { v = p.amount; r = w.recipient_view.r_tx }) w.payload.c_spend_new w.payload.c_tx _
        o
        (λ me.
          let (opened, point) =
            open_spendable-build_transfer_witness PL L p built.0 w built.1 fits in
          open_spendable-OpensPoint p.keys _ _ _ _ _ (from_me me) opened point)
        (λ me.
          let (got, point) =
            decrypt_incoming-build_transfer_witness PL L p built.0 sk addr_f w built.1 (for_me me)
              amount nonneg in
          (got, record { value = amount.0; blinding = r_tx; opened = sym point }, f me))
