-- ===== src/Witness/Transfer/Built.antt =====
-- What a witness that was built is built from, and when one is built.
use lumengate.Crypto.Poseidon.{Poseidon}
use lumengate.Prelude.{◌≡◌, refl, sym, false, arith, ◌-ℤ◌, ◌≤ℤ◌, ltb_ℤ, ltb_ℤ-eq-false, ℤ, pos}
use lumengate.Prelude.Result.{ok, >>=-eq-ok, ok_inj}
use lumengate.Crypto.Grumpkin.{Curve, ecdh}
use lumengate.Witness.Common.{or_else}
use lumengate.Witness.Transfer.{
  TransferParams, TransferWitness, ephemeral, transfer_witness, build_transfer_witness,
}

module _ {Point : Type 0} ⦃P : Poseidon⦄ ⦃C : Curve Point⦄ where
  pub record Built (p : TransferParams Point) (fresh : ℤ) (w : TransferWitness Point) : Type 0 where
    pub sigma : ℤ
    pub r_e : ℤ
    pub s_x : ℤ
    pub s_ar_x : ℤ
    pub s_as_x : ℤ
    pub nonneg : pos 0 ≤ℤ p.amount
    pub covered : pos 0 ≤ℤ p.v -ℤ p.amount
    pub salt : sigma ≡ or_else p.sigma fresh
    pub scalar : ephemeral p.r_e p.keys.vk sigma ≡ ok r_e
    pub secret_b : ecdh r_e p.pvk_b ≡ ok s_x
    pub secret_r : ecdh r_e p.k_aud_r ≡ ok s_ar_x
    pub secret_s : ecdh r_e p.k_aud_s ≡ ok s_as_x
    pub result : w ≡ transfer_witness p sigma r_e s_x s_ar_x s_as_x

  pub Built-of_ok :
      (p : TransferParams Point) (fresh : ℤ) (w : TransferWitness Point)
      → build_transfer_witness p fresh ≡ ok w
      → Built p fresh w
  unfolding build_transfer_witness
  Built-of_ok p fresh w h =
      let nonneg : ltb_ℤ p.amount (pos 0) ≡ false = ground arith in
      let covered : ltb_ℤ (p.v -ℤ p.amount) (pos 0) ≡ false = ground arith in
      let sigma = or_else p.sigma fresh in
      let h1 = rw (nonneg, covered) at h in
      let (r_e, scalar, h2) = >>=-eq-ok (ephemeral p.r_e p.keys.vk sigma) _ h1 in
      let (s_x, secret_b, h3) = >>=-eq-ok (ecdh r_e p.pvk_b) _ h2 in
      let (s_ar_x, secret_r, h4) = >>=-eq-ok (ecdh r_e p.k_aud_r) _ h3 in
      let (s_as_x, secret_s, h5) = >>=-eq-ok (ecdh r_e p.k_aud_s) _ h4 in
      record {
        sigma = sigma;
        r_e = r_e;
        s_x = s_x;
        s_ar_x = s_ar_x;
        s_as_x = s_as_x;
        nonneg = ltb_ℤ-eq-false p.amount (pos 0) nonneg;
        covered = ltb_ℤ-eq-false (p.v -ℤ p.amount) (pos 0) covered;
        salt = refl;
        scalar = scalar;
        secret_b = secret_b;
        secret_r = secret_r;
        secret_s = secret_s;
        result = sym (ok_inj h5);
      }
