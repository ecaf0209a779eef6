-- ===== src/Tests/PartyRuns.antt =====
-- What the auditor and the parties read, at concrete parameters.
use lumengate.Prelude.{◌≡◌, refl, true, none, arith, ◌+ℤ◌, ◌-ℤ◌, pos}
use lumengate.Prelude.Result.{ok}
use lumengate.Crypto.Grumpkin.{scalar_mul}
use lumengate.Crypto.Grumpkin.Toy.{toy, toy_laws, reduce}
use lumengate.Witness.Disclose.{build_disclose_sender_witness, build_disclose_recipient_witness}
use lumengate.Witness.Disclose.Laws.{sealed, seal, by_sender, by_recipient, build_disclose-agree}
use lumengate.Auditor.{audit_transfer, audit_withdraw, auditor_public_key}
use lumengate.Auditor.Laws.{
  transfer_event, withdraw_event, audit_transfer-build_transfer_witness,
  audit_withdraw-build_withdraw_witness,
}
use lumengate.Tests.Fixtures.{
  constant_hash, constant_hash_laws, alice, withdrawal, withdrawal_witness, sending,
  sending_witness,
}
use lumengate.Tests.WitnessRuns.{withdrawal_built, sending_built}

auditor_key : toy.h ≡ auditor_public_key (pos 1)
unfolding auditor_public_key scalar_mul toy reduce ◌-ℤ◌ ◌+ℤ◌
auditor_key = refl

audit_transfer-build_transfer_witness_example :
    audit_transfer (pos 1) (transfer_event "A" "B" sending_witness)
    ≡ ok (record {
      amount = pos 30;
      sender_balance = pos 70;
      r_tx = sending_witness.recipient_view.r_tx;
      channels_agree = true;
    })
unfolding ◌-ℤ◌
audit_transfer-build_transfer_witness_example =
    audit_transfer-build_transfer_witness constant_hash_laws toy_laws sending (pos 5) (pos 1) "A"
      "B" sending_witness sending_built auditor_key auditor_key refl (omega arith) tt

audit_withdraw-build_withdraw_witness_example :
    audit_withdraw (pos 1) (withdraw_event "A" "B" (pos 30) withdrawal_witness) ≡ ok (pos 70)
unfolding ◌-ℤ◌
audit_withdraw-build_withdraw_witness_example =
    audit_withdraw-build_withdraw_witness constant_hash_laws toy_laws withdrawal (pos 1) (pos 2)
      (pos 1) "A" "B" withdrawal_witness (withdrawal_built (pos 1) (pos 2)) auditor_key refl refl
      (omega arith)

build_disclose-agree_example :
    (sealed (
        build_disclose_sender_witness
          (by_sender sending sending_witness toy.g (pos 8) none)
          (pos 9))
      ≡ seal (pos 30) toy.g (pos 8) (pos 9))
    × (sealed (
          build_disclose_recipient_witness
            (by_recipient alice sending_witness toy.g (pos 8) none)
            (pos 9))
        ≡ seal (pos 30) toy.g (pos 8) (pos 9))
build_disclose-agree_example =
    build_disclose-agree constant_hash_laws toy_laws sending (pos 5) (pos 3) (pos 11)
      sending_witness toy.g (pos 8) (pos 9) none sending_built refl (omega arith) (omega arith) tt
