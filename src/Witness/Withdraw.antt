-- ===== src/Witness/Withdraw.antt =====
-- witness/withdraw.ts. A value that `randomScalar` would return is an argument.
pub mod Laws
use lumengate.Crypto.Poseidon.{Poseidon}
use lumengate.Prelude.Result.{◌>>=◌}
use lumengate.Prelude.{◌+◌, ◌-◌, Option, [], ◌∷◌, ◌++◌, if◌then◌else◌, ◌-ℤ◌, ltb_ℤ, ℤ, pos}
use lumengate.Prelude.Result.{Result, ok, err, negative_amount, exceeds_balance}
use lumengate.Crypto.Poseidon.{derive_spend_r, encrypt_balance, encrypt_auditor_sender_balance}
use lumengate.Crypto.Grumpkin.{Curve, scalar_mul, commit, ecdh}
use lumengate.Crypto.Keys.{KeyPair}
use lumengate.Witness.Common.{NoirInputs, field_in, point_in, or_else}

pub record WithdrawParams (Point : Type 0) : Type 0 where
  pub keys : KeyPair Point
  pub v : ℤ
  pub r : ℤ
  pub amount : ℤ
  pub k_aud_s : Point
  pub sigma : Option ℤ
  pub r_e : Option ℤ

pub record WithdrawPayload (Point : Type 0) : Type 0 where
  pub c_spend_new : Point
  pub b_tilde : ℤ
  pub r_e : Point
  pub sigma : ℤ
  pub b_aud_s : ℤ

pub record NextOpening (Point : Type 0) : Type 0 where
  pub v : ℤ
  pub r : ℤ
  pub c_spend : Point

pub record WithdrawWitness (Point : Type 0) : Type 0 where
  pub inputs : NoirInputs
  pub payload : WithdrawPayload Point
  pub next : NextOpening Point

module _ {Point : Type 0} ⦃P : Poseidon⦄ ⦃C : Curve Point⦄ where
  -- The return value, from the salt, the ephemeral scalar and the auditor's shared secret.
  unfoldable pub withdraw_witness : WithdrawParams Point → ℤ → ℤ → ℤ → WithdrawWitness Point
  withdraw_witness p sigma r_e s_as_x =
      let keys = p.keys in
      let v_new = p.v -ℤ p.amount in
      let c_spend : Point = commit p.v p.r in
      let r_new = derive_spend_r keys.vk sigma in
      let c_spend_new : Point = commit v_new r_new in
      let b_tilde = encrypt_balance v_new keys.vk sigma in
      let re_point : Point = scalar_mul r_e C.h in
      let b_aud_s = encrypt_auditor_sender_balance v_new s_as_x sigma in
      record {
        inputs =
            ("sk", field_in keys.sk)
              ∷ ("v", field_in p.v)
              ∷ ("r", field_in p.r)
              ∷ ("r_e", field_in r_e)
              ∷ point_in "c_spend" c_spend
            ++ point_in "y" keys.y
            ++ ("addr_f", field_in keys.addr_f) ∷ point_in "k_aud_s" p.k_aud_s
            ++ ("a", field_in p.amount) ∷ point_in "c_spend_new" c_spend_new
            ++ ("sigma", field_in sigma) ∷ ("b_tilde", field_in b_tilde) ∷ point_in "r_e" re_point
            ++ ("b_tilde_aud_s", field_in b_aud_s) ∷ [];
        payload = record {
          c_spend_new = c_spend_new;
          b_tilde = b_tilde;
          r_e = re_point;
          sigma = sigma;
          b_aud_s = b_aud_s;
        };
        next = record { v = v_new; r = r_new; c_spend = c_spend_new };
      }

  unfoldable pub build_withdraw_witness :
      WithdrawParams Point → ℤ → ℤ → Result (WithdrawWitness Point)
  build_withdraw_witness p fresh_sigma fresh_r_e =
      if ltb_ℤ p.amount (pos 0)
      then err negative_amount
      else if ltb_ℤ (p.v -ℤ p.amount) (pos 0)
      then err exceeds_balance
      else do
        let sigma = or_else p.sigma fresh_sigma
        let r_e = or_else p.r_e fresh_r_e
        s_as_x ← ecdh r_e p.k_aud_s
        ok (withdraw_witness p sigma r_e s_as_x)
