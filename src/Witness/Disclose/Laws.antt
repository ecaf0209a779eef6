-- ===== src/Witness/Disclose/Laws.antt =====
-- What the two parties to a transfer disclose of it.
use lumengate.Prelude.{
  ◌^◌, ◌≡◌, refl, ◌∙◌, true, false, Option, [], ◌∷◌, arith, ◌<ℤ◌, leb_ℤ, eqb_ℤ, ℤ, pos, negsuc,
}
use lumengate.Prelude.Result.{Result, ok, err, ◌>>=◌, err}
use lumengate.Crypto.Domain
use lumengate.Crypto.Field.{IsCanonical}
use lumengate.Crypto.Field.Reduce.{fr_mod-sub-fr_add}
use lumengate.Crypto.Poseidon.{
  Poseidon, PoseidonLaws, poseidon_with_domain, poseidon_with_domain-IsCanonical, vk_from_sk,
  decrypt_with_domain, encrypt_disclosure, encrypt_amount,
}
use lumengate.Crypto.Grumpkin.{Curve, CurveLaws, scalar_mul, ecdh, point_coords}
use lumengate.Crypto.Keys.{KeyPair, derive_keys}
use lumengate.Witness.Common.{or_else}
use lumengate.Witness.Transfer.{
  TransferParams, TransferWitness, transfer_witness, build_transfer_witness,
}
use lumengate.Witness.Transfer.Built.{Built-of_ok}
use lumengate.Witness.Transfer.Laws.{NonnegScalar, ecdh_agree, ephemeral-nonneg}
use lumengate.Witness.Disclose.{
  DisclosedEvent, DiscloseSenderParams, DiscloseRecipientParams, DiscloseWitness,
  build_disclose_sender_witness, build_disclose_recipient_witness,
}

abbrev pub disclosed : {Point : Type 0} → TransferWitness Point → DisclosedEvent Point
disclosed w = record { r_e = w.payload.r_e; sigma = w.payload.sigma; v_tilde = w.payload.v_tilde }

-- The amount, the ephemeral point and the sealed amount of a disclosure.
abbrev pub sealed : {Point : Type 0} → Result (DiscloseWitness Point) → Result (ℤ × Point × ℤ)
sealed (ok d) = ok (d.v_tx, d.r_disc, d.v_tilde_disc)
sealed (err e) = err e

eqb_ℤ-refl : (x : ℤ) → eqb_ℤ x x ≡ true
eqb_ℤ-refl x = ground arith

below : (v : ℤ) → v <ℤ pos (2 ^ 127) → leb_ℤ (pos (2 ^ 127)) v ≡ false
below (pos v) h = ground arith
below (negsuc v) h = ground arith

sealed->>= :
    {Point : Type 0} (m : Result ℤ) (f : ℤ → DiscloseWitness Point)
    → sealed (m >>= λ s. ok (f s)) ≡ (m >>= λ s. ok ((f s).v_tx, (f s).r_disc, (f s).v_tilde_disc))
sealed->>= (ok s) f = refl
sealed->>= (err e) f = refl

module _ {Point : Type 0} ⦃P : Poseidon⦄ ⦃C : Curve Point⦄ where
  -- An amount sealed to the holder of `p_r` with the scalar `r`, under the nonce `nu`.
  abbrev pub seal : ℤ → Point → ℤ → ℤ → Result (ℤ × Point × ℤ)
  seal v_tx p_r nu r = do s ← ecdh r p_r; ok (v_tx, scalar_mul r C.h, encrypt_disclosure v_tx s nu)

  -- What the sender gives: the scalar of the transfer and the recipient's key.
  abbrev pub by_sender :
      TransferParams Point
      → TransferWitness Point
      → Point
      → ℤ
      → Option ℤ
      → DiscloseSenderParams Point
  by_sender p w p_r nu r_disc = record {
    keys = p.keys;
    r_e_scalar = w.r_e_scalar;
    event = disclosed w;
    pvk_b = p.pvk_b;
    p_r = p_r;
    nu = nu;
    r_disc = r_disc;
  }

  -- What the recipient gives: the keys alone.
  abbrev pub by_recipient :
      KeyPair Point → TransferWitness Point → Point → ℤ → Option ℤ → DiscloseRecipientParams Point
  by_recipient keys w p_r nu r_disc = record {
    keys = keys;
    event = disclosed w;
    p_r = p_r;
    nu = nu;
    r_disc = r_disc;
  }

  pub sender_seals :
      (p : TransferParams Point) (fresh : ℤ) (w : TransferWitness Point) (p_r : Point) (nu r : ℤ)
      (r_disc : Option ℤ)
      → build_transfer_witness p fresh ≡ ok w
      → IsCanonical p.amount
      → p.amount <ℤ pos (2 ^ 127)
      → sealed (build_disclose_sender_witness (by_sender p w p_r nu r_disc) r)
        ≡ seal p.amount p_r nu (or_else r_disc r)
  unfolding build_disclose_sender_witness transfer_witness encrypt_amount decrypt_with_domain
  sender_seals p fresh w p_r nu r r_disc h fits small =
      let b = Built-of_ok p fresh w h in
      let event_point = point_coords (scalar_mul b.r_e C.h) in
      rw b.result (
        rw
          (
            eqb_ℤ-refl event_point.0,
            eqb_ℤ-refl event_point.1,
            b.secret_b,
            fr_mod-sub-fr_add p.amount _ fits,
            below p.amount small,
          )
          (sealed->>= (ecdh (or_else r_disc r) p_r) _))

  module _ (PL : PoseidonLaws P) (L : CurveLaws C) where
    recipient_seals :
        (p : TransferParams Point) (fresh sk addr_f : ℤ) (w : TransferWitness Point) (p_r : Point)
        (nu r : ℤ) (r_disc : Option ℤ)
        → build_transfer_witness p fresh ≡ ok w
        → p.pvk_b ≡ (derive_keys sk addr_f).pvk
        → IsCanonical p.amount
        → p.amount <ℤ pos (2 ^ 127)
        → NonnegScalar p.r_e
        → sealed (
            build_disclose_recipient_witness
              (by_recipient (derive_keys sk addr_f) w p_r nu r_disc)
              r)
          ≡ seal p.amount p_r nu (or_else r_disc r)
    unfolding build_disclose_recipient_witness transfer_witness encrypt_amount decrypt_with_domain
        derive_keys vk_from_sk
    recipient_seals p fresh sk addr_f w p_r nu r r_disc h to fits small n =
        let b = Built-of_ok p fresh w h in
        let vk = poseidon_with_domain Domain.viewing_key (sk ∷ addr_f ∷ []) in
        let secret : ecdh vk (scalar_mul b.r_e C.h) ≡ ok b.s_x =
          ecdh_agree PL L vk b.r_e (poseidon_with_domain-IsCanonical PL _ _).0
            (ephemeral-nonneg PL L p.r_e p.keys.vk b.sigma n b.scalar)
          ∙ (rw to at b.secret_b) in
        rw b.result (
          rw (secret, fr_mod-sub-fr_add p.amount _ fits, below p.amount small)
            (sealed->>= (ecdh (or_else r_disc r) p_r) _))

    -- Of a built transfer of an amount in [0, r) and below 2^127, with an ephemeral scalar
    -- that is derived or not negative, the sender and the recipient disclose the same: both
    -- seal the transfer's amount to the holder of the given key, with the same scalar to the
    -- same ciphertext, or both throw what that key agreement throws.
    pub build_disclose-agree :
        (p : TransferParams Point) (fresh sk addr_f : ℤ) (w : TransferWitness Point) (p_r : Point)
        (nu r : ℤ) (r_disc : Option ℤ)
        → build_transfer_witness p fresh ≡ ok w
        → p.pvk_b ≡ (derive_keys sk addr_f).pvk
        → IsCanonical p.amount
        → p.amount <ℤ pos (2 ^ 127)
        → NonnegScalar p.r_e
        → (sealed (build_disclose_sender_witness (by_sender p w p_r nu r_disc) r)
            ≡ seal p.amount p_r nu (or_else r_disc r))
          × (sealed (
                build_disclose_recipient_witness
                  (by_recipient (derive_keys sk addr_f) w p_r nu r_disc)
                  r)
              ≡ seal p.amount p_r nu (or_else r_disc r))
    build_disclose-agree p fresh sk addr_f w p_r nu r r_disc h to fits small n = (
      sender_seals p fresh w p_r nu r r_disc h fits small,
      recipient_seals p fresh sk addr_f w p_r nu r r_disc h to fits small n,
    )
