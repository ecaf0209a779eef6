-- ===== src/Auditor.antt =====
-- auditor/decrypt.ts: what the holder of an auditor's key reads from an event.
pub mod Laws
use lumengate.Prelude.{◌-◌, Bool, ◌-ℤ◌, eqb_ℤ, ℤ}
use lumengate.Prelude.Result.{Result, ok, ◌>>=◌}
use lumengate.Crypto.Domain
use lumengate.Crypto.Field.{fr_mod}
use lumengate.Crypto.Poseidon.{Poseidon, sponge_squeeze_2, decrypt_with_domain}
use lumengate.Crypto.Grumpkin.{Curve, scalar_mul, ecdh}
use lumengate.Chain.Events.{TransferEvent, WithdrawEvent}

pub record AuditedSenderChannel : Type 0 where
  pub amount : ℤ
  pub sender_balance : ℤ

pub record AuditedRecipientChannel : Type 0 where
  pub amount : ℤ
  pub r_tx : ℤ

pub record AuditedTransfer : Type 0 where
  pub amount : ℤ
  pub sender_balance : ℤ
  pub r_tx : ℤ
  pub channels_agree : Bool

module _ {Point : Type 0} ⦃P : Poseidon⦄ ⦃C : Curve Point⦄ where
  unfoldable pub audit_transfer_sender_channel :
      ℤ → TransferEvent Point → Result AuditedSenderChannel
  audit_transfer_sender_channel k ev = do
    s_x ← ecdh k ev.r_e
    let m = sponge_squeeze_2 Domain.auditor_sender s_x ev.sigma
    ok (record { amount = fr_mod (ev.v_aud_s -ℤ m.0); sender_balance = fr_mod (ev.b_aud_s -ℤ m.1) })

  unfoldable pub audit_transfer_recipient_channel :
      ℤ → TransferEvent Point → Result AuditedRecipientChannel
  audit_transfer_recipient_channel k ev = do
    s_x ← ecdh k ev.r_e
    let m = sponge_squeeze_2 Domain.auditor_recipient s_x ev.sigma
    ok (record { amount = fr_mod (ev.v_aud_r -ℤ m.0); r_tx = fr_mod (ev.r_aud_r -ℤ m.1) })

  unfoldable pub audit_transfer : ℤ → TransferEvent Point → Result AuditedTransfer
  unfolding audit_transfer_sender_channel audit_transfer_recipient_channel
  audit_transfer k ev = do
    s ← audit_transfer_sender_channel k ev
    r ← audit_transfer_recipient_channel k ev
    ok (record {
      amount = s.amount;
      sender_balance = s.sender_balance;
      r_tx = r.r_tx;
      channels_agree = eqb_ℤ s.amount r.amount;
    })

  unfoldable pub audit_withdraw : ℤ → WithdrawEvent Point → Result ℤ
  audit_withdraw k ev = do
    s_x ← ecdh k ev.r_e
    ok (decrypt_with_domain ev.b_aud_s Domain.auditor_sender s_x ev.sigma)

  unfoldable pub auditor_public_key : ℤ → Point
  auditor_public_key k = scalar_mul k C.h
