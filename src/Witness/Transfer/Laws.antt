-- ===== src/Witness/Transfer/Laws.antt =====
-- What the parties to a transfer recover from its event.
use lumengate.Prelude.{
  ◌≡◌, refl, ap, ◌∙◌, Option, none, some, [], ◌∷◌, arith, neg_part, ◌-ℤ◌, ◌≤ℤ◌, -ℤ_parts, ℤ, pos,
  negsuc,
}
use lumengate.Prelude.Result.{ok}
use lumengate.Crypto.Poseidon.{Poseidon}
use lumengate.Crypto.Domain
use lumengate.Crypto.Field.{fr_mod, IsCanonical}
use lumengate.Crypto.Field.Reduce.{fr_mod-sub-fr_add}
use lumengate.Crypto.Poseidon.{
  PoseidonLaws, poseidon_with_domain, vk_from_sk, derive_tx_blind, derive_spend_r,
  derive_ephemeral_r_e, encrypt_amount, encrypt_balance, poseidon_with_domain-IsCanonical,
}
use lumengate.Crypto.Grumpkin.{Curve, CurveLaws, scalar_mul, commit, ecdh}
use lumengate.Crypto.Grumpkin.Laws.{ecdh_comm}
use lumengate.Crypto.Keys.{derive_keys}
use lumengate.Witness.Transfer.{
  TransferParams, TransferWitness, ephemeral, transfer_witness, build_transfer_witness,
}
use lumengate.Witness.Withdraw.Laws.{remainder-IsCanonical}
use lumengate.Witness.Transfer.Built.{Built-of_ok}
use lumengate.State.Apply.{decrypt_incoming, open_spendable}

-- An explicit ephemeral scalar is not negative.
abbrev pub NonnegScalar : Option ℤ → Type 0
NonnegScalar none = Unit
NonnegScalar (some r_e) = neg_part r_e ≡ 0

amount-IsCanonical : (v a : ℤ) → IsCanonical v → pos 0 ≤ℤ a → pos 0 ≤ℤ v -ℤ a → IsCanonical a
amount-IsCanonical (pos v) (pos a) fits nonneg covered = ground (arith, -ℤ_parts (pos v) (pos a))
amount-IsCanonical (negsuc v) a fits nonneg covered = absurd (omega arith)
amount-IsCanonical (pos v) (negsuc a) fits nonneg covered = absurd (omega arith)

module _ {Point : Type 0} ⦃P : Poseidon⦄ ⦃C : Curve Point⦄ (PL : PoseidonLaws P)
    (L : CurveLaws C) where
  -- A secret agreed with the holder of a key that is not negative.
  pub ecdh_agree :
      (a b : ℤ)
      → neg_part a ≡ 0
      → neg_part b ≡ 0
      → ecdh a (scalar_mul b C.h) ≡ ecdh b (scalar_mul a C.h)
  ecdh_agree (pos a) (pos b) ha hb = ecdh_comm L a b C.h
  ecdh_agree (negsuc a) b ha hb = absurd (omega arith)
  ecdh_agree (pos a) (negsuc b) ha hb = absurd (omega arith)

  pub ephemeral-nonneg :
      (r_e : Option ℤ) (vk sigma : ℤ) {r : ℤ}
      → NonnegScalar r_e
      → ephemeral r_e vk sigma ≡ ok r
      → neg_part r ≡ 0
  unfolding derive_ephemeral_r_e
  ephemeral-nonneg none vk sigma n h =
      let canonical = poseidon_with_domain-IsCanonical PL Domain.ephemeral_key (vk ∷ sigma ∷ []) in
      ground (arith, canonical)
  ephemeral-nonneg (some r_e) vk sigma n h = ground arith

  -- The holder of the keys that a built transfer is addressed to decrypts, from the event's
  -- fields and the viewing key alone, the amount and the blinding that the sender used, and
  -- they open the transfer's commitment, for an amount in [0, r) and an ephemeral scalar that
  -- is derived or not negative.
  pub decrypt_incoming-build_transfer_witness :
      (p : TransferParams Point) (fresh sk addr_f : ℤ) (w : TransferWitness Point)
      → build_transfer_witness p fresh ≡ ok w
      → p.pvk_b ≡ (derive_keys sk addr_f).pvk
      → IsCanonical p.amount
      → NonnegScalar p.r_e
      → (decrypt_incoming (derive_keys sk addr_f) w.payload.r_e w.payload.v_tilde w.payload.sigma
          ≡ ok (record { v = p.amount; r = w.recipient_view.r_tx }))
        × (w.payload.c_tx ≡ commit p.amount w.recipient_view.r_tx)
  unfolding decrypt_incoming transfer_witness derive_keys encrypt_amount vk_from_sk
  decrypt_incoming-build_transfer_witness p fresh sk addr_f w h to fits n =
      let b = Built-of_ok p fresh w h in
      let vk = poseidon_with_domain Domain.viewing_key (sk ∷ addr_f ∷ []) in
      let secret : ecdh vk (scalar_mul b.r_e C.h) ≡ ok b.s_x =
        ecdh_agree vk b.r_e (poseidon_with_domain-IsCanonical PL _ _).0
          (ephemeral-nonneg p.r_e p.keys.vk b.sigma n b.scalar)
        ∙ (rw to at b.secret_b) in
      let unmasked : fr_mod (
            encrypt_amount p.amount b.s_x b.sigma
            -ℤ poseidon_with_domain Domain.tx_amount (b.s_x ∷ b.sigma ∷ []))
          ≡ p.amount =
        fr_mod-sub-fr_add p.amount _ fits in
      rw b.result (rw (secret, unmasked) refl, refl)

  -- The sender of a built transfer reads from the event's fields the new balance and the
  -- blinding that the code keeps as the next opening, and they open the new commitment of the
  -- payload, for a balance in [0, r).
  pub open_spendable-build_transfer_witness :
      (p : TransferParams Point) (fresh : ℤ) (w : TransferWitness Point)
      → build_transfer_witness p fresh ≡ ok w
      → IsCanonical p.v
      → (open_spendable p.keys w.payload.b_tilde w.payload.sigma
          ≡ record { v = p.v -ℤ p.amount; r = w.next.r })
        × (w.payload.c_spend_new ≡ commit (p.v -ℤ p.amount) w.next.r)
  unfolding open_spendable transfer_witness encrypt_balance
  open_spendable-build_transfer_witness p fresh w h fits =
      let b = Built-of_ok p fresh w h in
      let left : IsCanonical (p.v -ℤ p.amount) =
        remainder-IsCanonical p.v p.amount fits b.nonneg b.covered in
      rw b.result (
        ap (λ v. record { v = v; r = derive_spend_r p.keys.vk b.sigma })
            (fr_mod-sub-fr_add _ _ left),
        refl,
      )

  -- The amount and the blinding of a built transfer are in range.
  pub transfer_ranges :
      (p : TransferParams Point) (fresh : ℤ) (w : TransferWitness Point)
      → build_transfer_witness p fresh ≡ ok w
      → IsCanonical p.v
      → IsCanonical p.amount × IsCanonical w.recipient_view.r_tx
  unfolding transfer_witness derive_tx_blind
  transfer_ranges p fresh w h fits =
      let b = Built-of_ok p fresh w h in
      (
        amount-IsCanonical p.v p.amount fits b.nonneg b.covered,
        rw b.result (poseidon_with_domain-IsCanonical PL _ _),
      )
