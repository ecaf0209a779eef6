-- ===== src/Tests/WitnessRuns.antt =====
-- The built witnesses at concrete parameters.
use lumengate.Prelude.{◌≡◌, refl, arith, ◌+ℤ◌, ◌-ℤ◌, ℤ, pos}
use lumengate.Prelude.Result.{ok}
use lumengate.Crypto.Field.{IsCanonical}
use lumengate.Crypto.Poseidon.{
  derive_ephemeral_r_e, vk_from_sk, poseidon_with_domain, sponge, absorb,
}
use lumengate.Crypto.Grumpkin.{commit, scalar_mul, ecdh}
use lumengate.Crypto.Grumpkin.Toy.{toy, toy_laws, reduce}
use lumengate.Crypto.Keys.{derive_keys}
use lumengate.Witness.Withdraw.{withdraw_witness, build_withdraw_witness}
use lumengate.Witness.Withdraw.Laws.{open_spendable-build_withdraw_witness}
use lumengate.Witness.Transfer.{transfer_witness, build_transfer_witness}
use lumengate.Witness.Transfer.Laws.{
  decrypt_incoming-build_transfer_witness, open_spendable-build_transfer_witness,
}
use lumengate.State.Apply.{decrypt_incoming, open_spendable}
use lumengate.Tests.Fixtures.{
  constant_hash, constant_hash_laws, alice, withdrawal, withdrawal_witness, sending,
  sending_witness,
}

pub withdrawal_built :
    (fresh fresh' : ℤ) → build_withdraw_witness withdrawal fresh fresh' ≡ ok withdrawal_witness
unfolding build_withdraw_witness ◌-ℤ◌ ◌+ℤ◌ scalar_mul ecdh toy reduce
withdrawal_built fresh fresh' = refl

pub sending_built : build_transfer_witness sending (pos 5) ≡ ok sending_witness
unfolding build_transfer_witness derive_keys vk_from_sk derive_ephemeral_r_e poseidon_with_domain
    sponge absorb ◌-ℤ◌ ◌+ℤ◌ scalar_mul ecdh toy reduce
sending_built = refl

open_spendable-build_withdraw_witness_example :
    (open_spendable alice withdrawal_witness.payload.b_tilde (pos 5)
      ≡ record { v = pos 70; r = withdrawal_witness.next.r })
    × (withdrawal_witness.payload.c_spend_new ≡ commit (pos 70) withdrawal_witness.next.r)
    × IsCanonical (pos 70)
unfolding withdraw_witness ◌-ℤ◌
open_spendable-build_withdraw_witness_example =
    open_spendable-build_withdraw_witness withdrawal (pos 1) (pos 2) withdrawal_witness
      (withdrawal_built (pos 1) (pos 2)) (omega arith)

open_spendable-build_transfer_witness_example :
    (open_spendable alice sending_witness.payload.b_tilde (pos 5)
      ≡ record { v = pos 70; r = sending_witness.next.r })
    × (sending_witness.payload.c_spend_new ≡ commit (pos 70) sending_witness.next.r)
unfolding transfer_witness ◌-ℤ◌ derive_keys
open_spendable-build_transfer_witness_example =
    open_spendable-build_transfer_witness constant_hash_laws toy_laws sending (pos 5)
      sending_witness sending_built (omega arith)

decrypt_incoming-build_transfer_witness_example :
    (decrypt_incoming alice sending_witness.payload.r_e sending_witness.payload.v_tilde (pos 5)
      ≡ ok (record { v = pos 30; r = sending_witness.recipient_view.r_tx }))
    × (sending_witness.payload.c_tx ≡ commit (pos 30) sending_witness.recipient_view.r_tx)
unfolding transfer_witness ◌-ℤ◌ derive_keys
decrypt_incoming-build_transfer_witness_example =
    decrypt_incoming-build_transfer_witness constant_hash_laws toy_laws sending (pos 5) (pos 3)
      (pos 11) sending_witness sending_built refl (omega arith) tt
