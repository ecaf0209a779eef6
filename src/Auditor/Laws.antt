-- ===== src/Auditor/Laws.antt =====
-- What an auditor reads from the event of a built transfer or withdrawal.
use lumengate.Prelude.{◌≡◌, refl, ◌∙◌, true, arith, neg_part, ◌-ℤ◌, eqb_ℤ, ℤ}
use lumengate.Prelude.Result.{ok}
use mathlib.Core.Path.{subst}
use Prim.Native.String.{String}
use lumengate.Crypto.Field.{IsCanonical}
use lumengate.Crypto.Field.Reduce.{fr_mod-sub-fr_add}
use lumengate.Crypto.Poseidon.{
  Poseidon, PoseidonLaws, decrypt_with_domain, encrypt_auditor_sender_balance,
}
use lumengate.Crypto.Grumpkin.{Curve, CurveLaws, scalar_mul, ecdh}
use lumengate.Witness.Common.{or_else}
use lumengate.Witness.Withdraw.{
  WithdrawParams, WithdrawWitness, withdraw_witness, build_withdraw_witness,
}
use lumengate.Witness.Withdraw.Laws.{remainder-IsCanonical, BuiltWithdraw-of_ok}
use lumengate.Witness.Transfer.{
  TransferParams, TransferWitness, transfer_witness, build_transfer_witness,
}
use lumengate.Witness.Transfer.Built.{Built-of_ok}
use lumengate.Witness.Transfer.Laws.{NonnegScalar, ecdh_agree, ephemeral-nonneg, transfer_ranges}
use lumengate.Chain.Events.{TransferEvent, WithdrawEvent}
use lumengate.Auditor.{
  audit_transfer_sender_channel, audit_transfer_recipient_channel, audit_transfer, audit_withdraw,
  auditor_public_key,
}

-- The event of a transfer.
abbrev pub transfer_event :
    {Point : Type 0} → String → String → TransferWitness Point → TransferEvent Point
transfer_event from to w = record {
  from = from;
  to = to;
  r_e = w.payload.r_e;
  v_tilde = w.payload.v_tilde;
  sigma = w.payload.sigma;
  b_tilde = w.payload.b_tilde;
  v_aud_r = w.payload.v_aud_r;
  r_aud_r = w.payload.r_aud_r;
  v_aud_s = w.payload.v_aud_s;
  b_aud_s = w.payload.b_aud_s;
}

abbrev pub withdraw_event :
    {Point : Type 0} → String → String → ℤ → WithdrawWitness Point → WithdrawEvent Point
withdraw_event from to amount w = record {
  from = from;
  to = to;
  amount = amount;
  r_e = w.payload.r_e;
  sigma = w.payload.sigma;
  b_tilde = w.payload.b_tilde;
  b_aud_s = w.payload.b_aud_s;
}

eqb_ℤ-refl : (x : ℤ) → eqb_ℤ x x ≡ true
eqb_ℤ-refl x = ground arith

module _ {Point : Type 0} ⦃P : Poseidon⦄ ⦃C : Curve Point⦄ where
  -- Each channel, from the shared secret.
  sender_channel :
      (k : ℤ) (from to : String) (p : TransferParams Point) (sigma r_e s_x s_ar_x s_as_x : ℤ)
      → ecdh k (scalar_mul r_e C.h) ≡ ok s_as_x
      → IsCanonical p.amount
      → IsCanonical (p.v -ℤ p.amount)
      → audit_transfer_sender_channel k
          (transfer_event from to (transfer_witness p sigma r_e s_x s_ar_x s_as_x))
        ≡ ok (record { amount = p.amount; sender_balance = p.v -ℤ p.amount })
  unfolding audit_transfer_sender_channel transfer_witness
  sender_channel k from to p sigma r_e s_x s_ar_x s_as_x secret amount left =
      rw (secret, fr_mod-sub-fr_add p.amount _ amount, fr_mod-sub-fr_add (p.v -ℤ p.amount) _ left)
        refl

  recipient_channel :
      (k : ℤ) (from to : String) (p : TransferParams Point) (sigma r_e s_x s_ar_x s_as_x : ℤ)
      → ecdh k (scalar_mul r_e C.h) ≡ ok s_ar_x
      → IsCanonical p.amount
      → IsCanonical (transfer_witness p sigma r_e s_x s_ar_x s_as_x).recipient_view.r_tx
      → audit_transfer_recipient_channel k
          (transfer_event from to (transfer_witness p sigma r_e s_x s_ar_x s_as_x))
        ≡ ok (record {
          amount = p.amount;
          r_tx = (transfer_witness p sigma r_e s_x s_ar_x s_as_x).recipient_view.r_tx;
        })
  unfolding audit_transfer_recipient_channel transfer_witness
  recipient_channel k from to p sigma r_e s_x s_ar_x s_as_x secret amount canonical =
      rw (secret, fr_mod-sub-fr_add p.amount _ amount, fr_mod-sub-fr_add _ _ canonical) refl

module _ {Point : Type 0} ⦃P : Poseidon⦄ ⦃C : Curve Point⦄ (PL : PoseidonLaws P)
    (L : CurveLaws C) where
  -- The holder of the one auditor key of both parties reads from the event of a built transfer
  -- the amount, the sender's new balance and the blinding of the transfer, and the two channels
  -- agree, for a key that is not negative, a balance in [0, r), and an ephemeral scalar that is
  -- derived or not negative.
  pub audit_transfer-build_transfer_witness :
      (p : TransferParams Point) (fresh k : ℤ) (from to : String) (w : TransferWitness Point)
      → build_transfer_witness p fresh ≡ ok w
      → p.k_aud_r ≡ auditor_public_key k
      → p.k_aud_s ≡ auditor_public_key k
      → neg_part k ≡ 0
      → IsCanonical p.v
      → NonnegScalar p.r_e
      → audit_transfer k (transfer_event from to w)
        ≡ ok (record {
          amount = p.amount;
          sender_balance = p.v -ℤ p.amount;
          r_tx = w.recipient_view.r_tx;
          channels_agree = true;
        })
  unfolding audit_transfer auditor_public_key transfer_witness
  audit_transfer-build_transfer_witness p fresh k from to w h kr ks key fits n =
      let b = Built-of_ok p fresh w h in
      let scalar = ephemeral-nonneg PL L p.r_e p.keys.vk b.sigma n b.scalar in
      let (amount, r_tx) = transfer_ranges PL L p fresh w h fits in
      let left : IsCanonical (p.v -ℤ p.amount) =
        remainder-IsCanonical p.v p.amount fits b.nonneg b.covered in
      let agreed : ecdh k (scalar_mul b.r_e C.h) ≡ ecdh b.r_e (scalar_mul k C.h) =
        ecdh_agree PL L k b.r_e key scalar in
      let secret_r : ecdh k (scalar_mul b.r_e C.h) ≡ ok b.s_ar_x = agreed ∙ (rw kr at b.secret_r) in
      let secret_s : ecdh k (scalar_mul b.r_e C.h) ≡ ok b.s_as_x = agreed ∙ (rw ks at b.secret_s) in
      let canonical : IsCanonical
          (transfer_witness p b.sigma b.r_e b.s_x b.s_ar_x b.s_as_x).recipient_view.r_tx =
        subst (λ x. IsCanonical x.recipient_view.r_tx) b.result r_tx in
      rw b.result (
        rw
          (
            sender_channel k from to p b.sigma b.r_e b.s_x b.s_ar_x b.s_as_x secret_s amount left,
            recipient_channel k from to p b.sigma b.r_e b.s_x b.s_ar_x b.s_as_x secret_r amount
                canonical,
            eqb_ℤ-refl p.amount,
          )
          refl)

  -- The holder of the auditor key reads from the event of a built withdrawal the owner's new
  -- balance, for a key and an ephemeral scalar that are not negative and an old balance in [0,
  -- r).
  pub audit_withdraw-build_withdraw_witness :
      (p : WithdrawParams Point) (fresh fresh' k : ℤ) (from to : String) (w : WithdrawWitness Point)
      → build_withdraw_witness p fresh fresh' ≡ ok w
      → p.k_aud_s ≡ auditor_public_key k
      → neg_part k ≡ 0
      → neg_part (or_else p.r_e fresh') ≡ 0
      → IsCanonical p.v
      → audit_withdraw k (withdraw_event from to p.amount w) ≡ ok (p.v -ℤ p.amount)
  unfolding audit_withdraw auditor_public_key withdraw_witness encrypt_auditor_sender_balance
      decrypt_with_domain
  audit_withdraw-build_withdraw_witness p fresh fresh' k from to w h ks key scalar fits =
      let b = BuiltWithdraw-of_ok p fresh fresh' w h in
      let secret : ecdh k (scalar_mul (or_else p.r_e fresh') C.h) ≡ ok b.s_as_x =
        ecdh_agree PL L k (or_else p.r_e fresh') key scalar ∙ (rw ks at b.secret) in
      let left : IsCanonical (p.v -ℤ p.amount) =
        remainder-IsCanonical p.v p.amount fits b.nonneg b.covered in
      rw b.result (rw (secret, fr_mod-sub-fr_add (p.v -ℤ p.amount) _ left) refl)
