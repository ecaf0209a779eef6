-- ===== src/Witness/Disclose.antt =====
-- witness/disclose-sender.ts and witness/disclose-recipient.ts. The value that `randomScalar` would
-- return is an argument.
pub mod Laws
use lumengate.Prelude.{
  ◌+◌, ◌^◌, not, ◌||◌, Option, [], ◌∷◌, ◌++◌, if◌then◌else◌, leb_ℤ, eqb_ℤ, ℤ, pos,
}
use lumengate.Prelude.Result.{Result, ok, err, ◌>>=◌, not_this_account, r_e_mismatch}
use lumengate.Crypto.Domain
use lumengate.Crypto.Poseidon.{Poseidon, decrypt_with_domain, encrypt_disclosure}
use lumengate.Crypto.Grumpkin.{Curve, scalar_mul, ecdh, point_coords}
use lumengate.Crypto.Keys.{KeyPair}
use lumengate.Witness.Common.{NoirInputs, field_in, point_in, or_else}

-- The fields of the event that are disclosed.
pub record DisclosedEvent (Point : Type 0) : Type 0 where
  pub r_e : Point
  pub sigma : ℤ
  pub v_tilde : ℤ

pub record DiscloseSenderParams (Point : Type 0) : Type 0 where
  pub keys : KeyPair Point
  pub r_e_scalar : ℤ
  pub event : DisclosedEvent Point
  pub pvk_b : Point
  pub p_r : Point
  pub nu : ℤ
  pub r_disc : Option ℤ

pub record DiscloseRecipientParams (Point : Type 0) : Type 0 where
  pub keys : KeyPair Point
  pub event : DisclosedEvent Point
  pub p_r : Point
  pub nu : ℤ
  pub r_disc : Option ℤ

-- `DiscloseSenderWitness` and `DiscloseRecipientWitness` have the same fields.
pub record DiscloseWitness (Point : Type 0) : Type 0 where
  pub inputs : NoirInputs
  pub v_tx : ℤ
  pub r_disc : Point
  pub v_tilde_disc : ℤ

module _ {Point : Type 0} ⦃P : Poseidon⦄ ⦃C : Curve Point⦄ where
  unfoldable pub build_disclose_sender_witness :
      DiscloseSenderParams Point → ℤ → Result (DiscloseWitness Point)
  build_disclose_sender_witness p fresh =
      let keys = p.keys in
      let event = p.event in
      let r_e_derived = point_coords (scalar_mul p.r_e_scalar C.h) in
      let r_e_event = point_coords event.r_e in
      if not (eqb_ℤ r_e_derived.0 r_e_event.0) || not (eqb_ℤ r_e_derived.1 r_e_event.1)
      then err r_e_mismatch
      else do
        s_bx ← ecdh p.r_e_scalar p.pvk_b
        let v_tx = decrypt_with_domain event.v_tilde Domain.tx_amount s_bx event.sigma
        let r_disc_scalar = or_else p.r_disc fresh
        let r_disc : Point = scalar_mul r_disc_scalar C.h
        if leb_ℤ (pos (2 ^ 127)) v_tx then err not_this_account else do
          s_disc_x ← ecdh r_disc_scalar p.p_r
          let v_tilde_disc = encrypt_disclosure v_tx s_disc_x p.nu
          ok (record {
            inputs =
                ("sk", field_in keys.sk)
                  ∷ ("r_e", field_in p.r_e_scalar)
                  ∷ ("v_tx", field_in v_tx)
                  ∷ ("r_disc", field_in r_disc_scalar)
                  ∷ ("addr_f", field_in keys.addr_f)
                  ∷ point_in "pvk_a" keys.pvk
                ++ point_in "r_e" event.r_e
                ++ ("sigma", field_in event.sigma)
                  ∷ ("v_tilde", field_in event.v_tilde)
                  ∷ point_in "pvk_b" p.pvk_b
                ++ point_in "p_r" p.p_r
                ++ ("nu", field_in p.nu) ∷ point_in "r_disc" r_disc
                ++ ("v_tilde_disc", field_in v_tilde_disc) ∷ [];
            v_tx = v_tx;
            r_disc = r_disc;
            v_tilde_disc = v_tilde_disc;
          })

  unfoldable pub build_disclose_recipient_witness :
      DiscloseRecipientParams Point → ℤ → Result (DiscloseWitness Point)
  build_disclose_recipient_witness p fresh = do
    let keys = p.keys
    let event = p.event
    s_x ← ecdh keys.vk event.r_e
    let v_tx = decrypt_with_domain event.v_tilde Domain.tx_amount s_x event.sigma
    let r_disc_scalar = or_else p.r_disc fresh
    let r_disc : Point = scalar_mul r_disc_scalar C.h
    if leb_ℤ (pos (2 ^ 127)) v_tx then err not_this_account else do
      s_disc_x ← ecdh r_disc_scalar p.p_r
      let v_tilde_disc = encrypt_disclosure v_tx s_disc_x p.nu
      ok (record {
        inputs =
            ("sk", field_in keys.sk)
              ∷ ("v_tx", field_in v_tx)
              ∷ ("r_disc", field_in r_disc_scalar)
              ∷ ("addr_f", field_in keys.addr_f)
              ∷ point_in "pvk_a" keys.pvk
            ++ point_in "r_e" event.r_e
            ++ ("sigma", field_in event.sigma)
              ∷ ("v_tilde", field_in event.v_tilde)
              ∷ point_in "p_r" p.p_r
            ++ ("nu", field_in p.nu) ∷ point_in "r_disc" r_disc
            ++ ("v_tilde_disc", field_in v_tilde_disc) ∷ [];
        v_tx = v_tx;
        r_disc = r_disc;
        v_tilde_disc = v_tilde_disc;
      })
