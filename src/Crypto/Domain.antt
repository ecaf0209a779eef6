-- ===== src/Crypto/Domain.antt =====
-- The domain separation tags `DOMAIN` of crypto/constants.ts.

use lumengate.Prelude.{ℤ, pos}

abbrev pub address : ℤ
address = pos 1

abbrev pub viewing_key : ℤ
viewing_key = pos 2

abbrev pub delegation_viewing_key : ℤ
delegation_viewing_key = pos 3

abbrev pub spend_randomness : ℤ
spend_randomness = pos 4

abbrev pub tx_blinding : ℤ
tx_blinding = pos 5

abbrev pub tx_amount : ℤ
tx_amount = pos 6

abbrev pub encrypted_balance : ℤ
encrypted_balance = pos 7

abbrev pub encrypted_allowance : ℤ
encrypted_allowance = pos 8

abbrev pub allowance_randomness : ℤ
allowance_randomness = pos 9

abbrev pub escrowed_delegation_viewing_key : ℤ
escrowed_delegation_viewing_key = pos 10

abbrev pub auditor_sender : ℤ
auditor_sender = pos 11

abbrev pub auditor_recipient : ℤ
auditor_recipient = pos 12

abbrev pub disclosure : ℤ
disclosure = pos 13

abbrev pub ephemeral_key : ℤ
ephemeral_key = pos 15
