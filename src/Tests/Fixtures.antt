-- ===== src/Tests/Fixtures.antt =====
-- Concrete keys and parameters.
use lumengate.Prelude.{none, some, arith, pos}
use lumengate.Crypto.Poseidon.{Poseidon, PoseidonLaws}
use lumengate.Crypto.Grumpkin.Toy.{Residue, toy}
use lumengate.Crypto.Keys.{KeyPair, derive_keys}
use lumengate.Witness.Withdraw.{WithdrawParams, WithdrawWitness, withdraw_witness}
use lumengate.Witness.Transfer.{TransferParams, TransferWitness, transfer_witness}

instance abbrev pub constant_hash : Poseidon
constant_hash = record { permute = λ b. (pos 7, pos 9, pos 0, pos 0) }

pub constant_hash_laws : PoseidonLaws constant_hash
constant_hash_laws = record { canonical_0 = λ b. omega arith; canonical_1 = λ b. omega arith }

abbrev pub alice : KeyPair Residue
alice = derive_keys (pos 3) (pos 11)

-- A withdrawal of 30 out of 100 with the salt 5.
abbrev pub withdrawal : WithdrawParams Residue
withdrawal = record {
  keys = alice;
  v = pos 100;
  r = pos 0;
  amount = pos 30;
  k_aud_s = toy.h;
  sigma = some (pos 5);
  r_e = some (pos 6);
}

abbrev pub withdrawal_witness : WithdrawWitness Residue
withdrawal_witness = withdraw_witness withdrawal (pos 5) (pos 6) (pos 0)

-- A transfer of 30 out of 100, by Alice to herself.
abbrev pub sending : TransferParams Residue
sending = record {
  keys = alice;
  v = pos 100;
  r = pos 0;
  amount = pos 30;
  pvk_b = alice.pvk;
  k_aud_r = toy.h;
  k_aud_s = toy.h;
  sigma = none;
  r_e = none;
}

abbrev pub sending_witness : TransferWitness Residue
sending_witness = transfer_witness sending (pos 5) (pos 7) (pos 0) (pos 0) (pos 0)
