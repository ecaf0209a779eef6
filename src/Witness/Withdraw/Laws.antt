-- ===== src/Witness/Withdraw/Laws.antt =====
-- When a withdrawal is built, and what its owner reads from the event.
use lumengate.Prelude.{
  ◌≡◌, refl, sym, ap, false, arith, ◌-ℤ◌, ◌≤ℤ◌, ltb_ℤ, -ℤ_parts, ltb_ℤ-eq-false, ℤ, pos, negsuc,
}
use lumengate.Prelude.Result.{ok, >>=-eq-ok, ok_inj}
use lumengate.Crypto.Poseidon.{Poseidon}
use lumengate.Crypto.Field.{IsCanonical}
use lumengate.Crypto.Field.Reduce.{fr_mod-sub-fr_add}
use lumengate.Crypto.Poseidon.{derive_spend_r, encrypt_balance}
use lumengate.Crypto.Grumpkin.{Curve, commit, ecdh}
use lumengate.Witness.Common.{or_else}
use lumengate.Witness.Withdraw.{
  WithdrawParams, WithdrawWitness, withdraw_witness, build_withdraw_witness,
}
use lumengate.State.Apply.{open_spendable}

-- What is left of a canonical value is canonical.
pub remainder-IsCanonical :
    (v a : ℤ) → IsCanonical v → pos 0 ≤ℤ a → pos 0 ≤ℤ v -ℤ a → IsCanonical (v -ℤ a)
remainder-IsCanonical (pos v) (pos a) fits nonneg covered = ground (arith, -ℤ_parts (pos v) (pos a))
remainder-IsCanonical (negsuc v) a fits nonneg covered = absurd (omega arith)
remainder-IsCanonical (pos v) (negsuc a) fits nonneg covered = absurd (omega arith)

module _ {Point : Type 0} ⦃P : Poseidon⦄ ⦃C : Curve Point⦄ where
  pub record BuiltWithdraw (p : WithdrawParams Point) (fresh' : ℤ) (w : WithdrawWitness Point)
      : Type 0 where
    pub sigma : ℤ
    pub s_as_x : ℤ
    pub secret : ecdh (or_else p.r_e fresh') p.k_aud_s ≡ ok s_as_x
    pub nonneg : pos 0 ≤ℤ p.amount
    pub covered : pos 0 ≤ℤ p.v -ℤ p.amount
    pub result : w ≡ withdraw_witness p sigma (or_else p.r_e fresh') s_as_x

  pub BuiltWithdraw-of_ok :
      (p : WithdrawParams Point) (fresh fresh' : ℤ) (w : WithdrawWitness Point)
      → build_withdraw_witness p fresh fresh' ≡ ok w
      → BuiltWithdraw p fresh' w
  unfolding build_withdraw_witness
  BuiltWithdraw-of_ok p fresh fresh' w h =
      let nonneg : ltb_ℤ p.amount (pos 0) ≡ false = ground arith in
      let covered : ltb_ℤ (p.v -ℤ p.amount) (pos 0) ≡ false = ground arith in
      let h1 = rw (nonneg, covered) at h in
      let r_e = or_else p.r_e fresh' in
      let (s_as_x, secret, h2) = >>=-eq-ok (ecdh r_e p.k_aud_s) _ h1 in
      record {
        sigma = or_else p.sigma fresh;
        s_as_x = s_as_x;
        secret = secret;
        nonneg = ltb_ℤ-eq-false p.amount (pos 0) nonneg;
        covered = ltb_ℤ-eq-false (p.v -ℤ p.amount) (pos 0) covered;
        result = sym (ok_inj h2);
      }

  -- The owner of a built withdrawal reads from the event's fields the new balance and the
  -- blinding that the code keeps as the next opening; they open the new commitment of the
  -- payload, and the new balance lies in [0, r), for an old balance in [0, r).
  pub open_spendable-build_withdraw_witness :
      (p : WithdrawParams Point) (fresh fresh' : ℤ) (w : WithdrawWitness Point)
      → build_withdraw_witness p fresh fresh' ≡ ok w
      → IsCanonical p.v
      → (open_spendable p.keys w.payload.b_tilde w.payload.sigma
          ≡ record { v = p.v -ℤ p.amount; r = w.next.r })
        × (w.payload.c_spend_new ≡ commit (p.v -ℤ p.amount) w.next.r)
        × IsCanonical (p.v -ℤ p.amount)
  unfolding open_spendable withdraw_witness encrypt_balance
  open_spendable-build_withdraw_witness p fresh fresh' w h fits =
      let b = BuiltWithdraw-of_ok p fresh fresh' w h in
      let left = remainder-IsCanonical p.v p.amount fits b.nonneg b.covered in
      rw b.result (
        ap (λ v. record { v = v; r = derive_spend_r p.keys.vk b.sigma })
            (fr_mod-sub-fr_add _ _ left),
        refl,
        left,
      )
