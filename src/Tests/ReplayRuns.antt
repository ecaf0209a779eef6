-- ===== src/Tests/ReplayRuns.antt =====
-- A history of each kind of operation, replayed.
use lumengate.Prelude.{
  ℕ, ◌+◌, ◌-◌, ◌<◌, ◌≡◌, refl, ◌≢◌, true, none, List, [], ◌∷◌, arith, pos_part, pos,
}
use lumengate.Prelude.Result.{ok, ok_inj}
use mathlib.Core.Path.{subst}
use lumengate.Crypto.Field.{fr_modulus}
use lumengate.Crypto.Poseidon.{derive_tx_blind, poseidon_with_domain, sponge, absorb}
use lumengate.Crypto.Grumpkin.{commit}
use lumengate.Crypto.Grumpkin.Toy.{Residue, toy, toy_laws}
use lumengate.Witness.Transfer.{transfer_witness}
use lumengate.Chain.Events.{BaseEvent, merge}
use lumengate.State.Types.{AccountState, fresh_state}
use lumengate.State.Apply.{apply_effect, apply, apply_all}
use lumengate.State.Ledger.{
  ChainAccount, Operation, registered, deposited, merged_in, withdrawn, transferred, events_of,
  effects, Opens, BlindingsFit,
}
use lumengate.State.Ledger.Replay.{AllHonest, apply_all-fresh_state-Opens, merge-not_Opens}
use lumengate.Tests.Fixtures.{
  constant_hash, constant_hash_laws, alice, withdrawal, withdrawal_witness, sending,
  sending_witness,
}
use lumengate.Tests.WitnessRuns.{withdrawal_built, sending_built}

abbrev at_ledger : ℕ → BaseEvent
at_ledger n = record { ledger = n; tx_hash = "h"; cursor = "c" }

abbrev spending : List (Operation Residue)
spending =
    withdrawn (at_ledger 4) "A" "B" withdrawal withdrawal_witness
    ∷ transferred (at_ledger 5) "A" "A" sending sending_witness
    ∷ []

abbrev history : List (Operation Residue)
history =
    registered (at_ledger 1) "A" 0
    ∷ deposited (at_ledger 2) "B" "A" (pos 100)
    ∷ merged_in (at_ledger 3) "A"
    ∷ spending

history-AllHonest : AllHonest alice "A" history
history-AllHonest = (
  tt,
  (
    refl,
    (
      tt,
      (
        (λ _. (refl, (refl, omega arith), (pos 1, pos 2, withdrawal_built (pos 1) (pos 2)))),
        (((pos 5, sending_built), (refl, omega arith), tt, (λ _. refl), (λ _. refl)), tt),
      ),
    ),
  ),
)

-- Each state is the one that the operation before leaves.
history-BlindingsFit : BlindingsFit alice "A" (fresh_state "A") history
unfolding apply apply_effect fresh_state transfer_witness derive_tx_blind poseidon_with_domain
    sponge absorb
history-BlindingsFit = (
  tt,
  λ s1 e1.
      subst
        (λ s.
          BlindingsFit alice "A" s
            (deposited (at_ledger 2) "B" "A" (pos 100) ∷ merged_in (at_ledger 3) "A" ∷ spending))
        (ok_inj e1)
        (
          tt,
          λ s2 e2.
              subst (λ s. BlindingsFit alice "A" s (merged_in (at_ledger 3) "A" ∷ spending))
                (ok_inj e2)
                (
                  (λ _. omega arith),
                  λ s3 e3.
                      subst (λ s. BlindingsFit alice "A" s spending) (ok_inj e3)
                        (
                          tt,
                          λ s4 e4. (
                            (λ _.
                                subst
                                  (λ (s : AccountState).
                                    pos_part s.receiving.r
                                      + pos_part sending_witness.recipient_view.r_tx
                                    < fr_modulus)
                                  (ok_inj e4) (omega arith)),
                            λ _ _. tt,
                          ),
                        ),
                ),
        ),
)

apply_all-fresh_state-Opens_example :
    (s : AccountState) × (apply_all alice (fresh_state "A") (events_of history) ≡ ok s)
    × Opens s (effects "A" history (record { spendable = toy.infinity; receiving = toy.infinity }))
apply_all-fresh_state-Opens_example =
    apply_all-fresh_state-Opens constant_hash_laws toy_laws (pos 3) (pos 11) "A" history
      history-AllHonest history-BlindingsFit

-- Blindings whose sum is r + 3.
abbrev wrapping : AccountState
wrapping = record {
  address = "A";
  spendable = record { v = pos 1; r = pos (fr_modulus - 2) };
  receiving = record { v = pos 2; r = pos 5 };
  registered = true;
  cursor = none;
  synced_ledger = 0;
  optimistic_tx_hashes = none;
}

abbrev stored : ChainAccount Residue
stored = record {
  spendable = commit (pos 1) (pos (fr_modulus - 2));
  receiving = commit (pos 2) (pos 5);
}

merge-not_Opens_example :
    (s' : AccountState) × (apply alice wrapping (merge (at_ledger 1) "A") ≡ ok s')
    × (commit s'.spendable.v s'.spendable.r ≢ toy.add stored.spendable stored.receiving)
merge-not_Opens_example =
    merge-not_Opens toy_laws alice wrapping stored (at_ledger 1)
      (record {
        spend_v = refl;
        spend_r = omega arith;
        receive_v = refl;
        receive_r = omega arith;
        spend = refl;
        receive = refl;
      })
      refl (omega arith)
