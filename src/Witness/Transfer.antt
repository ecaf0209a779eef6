-- ===== src/Witness/Transfer.antt =====
-- witness/transfer.ts. The value that `randomScalar` would return is an argument.
pub mod Built
pub mod Laws
use lumengate.Crypto.Poseidon.{Poseidon}
use lumengate.Prelude.Result.{◌>>=◌}
use lumengate.Prelude.{
  ◌+◌, ◌-◌, Option, none, some, [], ◌∷◌, ◌++◌, if◌then◌else◌, ◌-ℤ◌, ltb_ℤ, ℤ, pos,
}
use lumengate.Prelude.Result.{Result, ok, err, negative_amount, exceeds_balance}
use lumengate.Crypto.Domain
use lumengate.Crypto.Field.{fr_add}
use lumengate.Crypto.Poseidon.{
  derive_spend_r, derive_tx_blind, derive_ephemeral_r_e, encrypt_balance, encrypt_amount,
  sponge_squeeze_2,
}
use lumengate.Crypto.Grumpkin.{Curve, scalar_mul, commit, ecdh}
use lumengate.Crypto.Keys.{KeyPair}
use lumengate.Witness.Common.{NoirInputs, field_in, point_in, or_else}
use lumengate.Witness.Withdraw.{NextOpening}

pub record TransferParams (Point : Type 0) : Type 0 where
  pub keys : KeyPair Point
  pub v : ℤ
  pub r : ℤ
  pub amount : ℤ
  pub pvk_b : Point
  pub k_aud_r : Point
  pub k_aud_s : Point
  pub sigma : Option ℤ
  pub r_e : Option ℤ

pub record TransferPayload (Point : Type 0) : Type 0 where
  pub c_spend_new : Point
  pub c_tx : Point
  pub r_e : Point
  pub v_tilde : ℤ
  pub b_tilde : ℤ
  pub sigma : ℤ
  pub v_aud_r : ℤ
  pub r_aud_r : ℤ
  pub v_aud_s : ℤ
  pub b_aud_s : ℤ

pub record RecipientView (Point : Type 0) : Type 0 where
  pub v_tx : ℤ
  pub r_tx : ℤ
  pub c_tx : Point

pub record TransferWitness (Point : Type 0) : Type 0 where
  pub inputs : NoirInputs
  pub payload : TransferPayload Point
  pub next : NextOpening Point
  pub recipient_view : RecipientView Point
  pub r_e_scalar : ℤ

module _ ⦃P : Poseidon⦄ where
  -- `p.rE ?? deriveEphemeralRE(keys.vk, sigma)`.
  abbrev pub ephemeral : Option ℤ → ℤ → ℤ → Result ℤ
  ephemeral none vk sigma = derive_ephemeral_r_e vk sigma
  ephemeral (some r_e) vk sigma = ok r_e

module _ {Point : Type 0} ⦃P : Poseidon⦄ ⦃C : Curve Point⦄ where
  -- The return value, from the salt, the ephemeral scalar and the three shared secrets.
  unfoldable pub transfer_witness : TransferParams Point → ℤ → ℤ → ℤ → ℤ → ℤ → TransferWitness Point
  transfer_witness p sigma r_e s_x s_ar_x s_as_x =
      let keys = p.keys in
      let v_new = p.v -ℤ p.amount in
      let c_spend : Point = commit p.v p.r in
      let r_new = derive_spend_r keys.vk sigma in
      let c_spend_new : Point = commit v_new r_new in
      let b_tilde = encrypt_balance v_new keys.vk sigma in
      let re_point : Point = scalar_mul r_e C.h in
      let r_tx = derive_tx_blind s_x sigma in
      let c_tx : Point = commit p.amount r_tx in
      let v_tilde = encrypt_amount p.amount s_x sigma in
      let m_r = sponge_squeeze_2 Domain.auditor_recipient s_ar_x sigma in
      let v_aud_r = fr_add p.amount m_r.0 in
      let r_aud_r = fr_add r_tx m_r.1 in
      let m_s = sponge_squeeze_2 Domain.auditor_sender s_as_x sigma in
      let v_aud_s = fr_add p.amount m_s.0 in
      let b_aud_s = fr_add v_new m_s.1 in
      record {
        inputs =
            ("sk", field_in keys.sk)
              ∷ ("v", field_in p.v)
              ∷ ("r", field_in p.r)
              ∷ ("v_tx", field_in p.amount)
              ∷ ("r_e", field_in r_e)
              ∷ point_in "c_spend" c_spend
            ++ point_in "y" keys.y
            ++ point_in "pvk_b" p.pvk_b
            ++ ("addr_f", field_in keys.addr_f) ∷ point_in "k_aud_r" p.k_aud_r
            ++ point_in "k_aud_s" p.k_aud_s
            ++ point_in "c_spend_new" c_spend_new
            ++ point_in "c_tx" c_tx
            ++ point_in "r_e" re_point
            ++ ("v_tilde", field_in v_tilde)
              ∷ ("b_tilde", field_in b_tilde)
              ∷ ("sigma", field_in sigma)
              ∷ ("v_tilde_aud_r", field_in v_aud_r)
              ∷ ("r_tilde_aud_r", field_in r_aud_r)
              ∷ ("v_tilde_aud_s", field_in v_aud_s)
              ∷ ("b_tilde_aud_s", field_in b_aud_s)
              ∷ [];
        payload = record {
          c_spend_new = c_spend_new;
          c_tx = c_tx;
          r_e = re_point;
          v_tilde = v_tilde;
          b_tilde = b_tilde;
          sigma = sigma;
          v_aud_r = v_aud_r;
          r_aud_r = r_aud_r;
          v_aud_s = v_aud_s;
          b_aud_s = b_aud_s;
        };
        next = record { v = v_new; r = r_new; c_spend = c_spend_new };
        recipient_view = record { v_tx = p.amount; r_tx = r_tx; c_tx = c_tx };
        r_e_scalar = r_e;
      }

  unfoldable pub build_transfer_witness : TransferParams Point → ℤ → Result (TransferWitness Point)
  build_transfer_witness p fresh_sigma =
      if ltb_ℤ p.amount (pos 0)
      then err negative_amount
      else if ltb_ℤ (p.v -ℤ p.amount) (pos 0)
      then err exceeds_balance
      else do
        let sigma = or_else p.sigma fresh_sigma
        r_e ← ephemeral p.r_e p.keys.vk sigma
        s_x ← ecdh r_e p.pvk_b
        s_ar_x ← ecdh r_e p.k_aud_r
        s_as_x ← ecdh r_e p.k_aud_s
        ok (transfer_witness p sigma r_e s_x s_ar_x s_as_x)
