-- ===== src/Crypto/Poseidon.antt =====
-- crypto/poseidon2.ts. The permutation is that of @zkpassport/poseidon2, a parameter.
use lumengate.Prelude.{
  ℕ, ◌*◌, ◌^◌, List, [], ◌∷◌, arith, if◌then◌else◌, length, ◌-ℤ◌, eqb_ℤ, ℤ, pos,
}
use lumengate.Prelude.Result.{Result, ok, err, zero_ephemeral}
use lumengate.Crypto.Domain
use lumengate.Crypto.Field.{fr_mod, fr_add, IsCanonical}

-- The sponge state, width 4.
abbrev pub Block : Type 0
Block = ℤ × ℤ × ℤ × ℤ

-- `permute` of @zkpassport/poseidon2.
pub record Poseidon : Type 0 where
  pub permute : Block → Block

-- Its documented behaviour, as far as it is used: it returns field elements.
pub record PoseidonLaws (P : Poseidon) : Type 0 where
  pub canonical_0 : (b : Block) → IsCanonical (P.permute b).0
  pub canonical_1 : (b : Block) → IsCanonical (P.permute b).1

abbrev pub iv_base : ℕ
iv_base = 2 ^ 64

module _ ⦃P : Poseidon⦄ where
  -- The absorption of `sponge`: blocks of three, then a remainder of one or two if there is one.
  unfoldable pub absorb : List ℤ → Block → Block
  absorb [] s = s
  absorb (a ∷ []) s = P.permute (fr_add s.0 a, s.1, s.2, s.3)
  absorb (a ∷ b ∷ []) s = P.permute (fr_add s.0 a, fr_add s.1 b, s.2, s.3)
  absorb (a ∷ b ∷ c ∷ rest) s =
      absorb rest (P.permute (fr_add s.0 a, fr_add s.1 b, fr_add s.2 c, s.3))

  unfoldable pub sponge : List ℤ → ℤ
  unfolding absorb
  sponge inputs = (absorb inputs (pos 0, pos 0, pos 0, fr_mod (pos (length inputs * iv_base)))).0

  unfoldable pub poseidon_with_domain : ℤ → List ℤ → ℤ
  unfolding sponge
  poseidon_with_domain d inputs = sponge (d ∷ inputs)

  unfoldable pub sponge_squeeze_2 : ℤ → ℤ → ℤ → ℤ × ℤ
  sponge_squeeze_2 d sx sigma =
      let state = P.permute (d, sx, sigma, fr_mod (pos (3 * iv_base))) in (state.0, state.1)

  unfoldable pub vk_from_sk : ℤ → ℤ → ℤ
  vk_from_sk sk addr_f = poseidon_with_domain Domain.viewing_key (sk ∷ addr_f ∷ [])

  unfoldable pub dvk_from_vk_op : ℤ → ℤ → ℤ
  dvk_from_vk_op vk op_i = poseidon_with_domain Domain.delegation_viewing_key (vk ∷ op_i ∷ [])

  unfoldable pub derive_spend_r : ℤ → ℤ → ℤ
  derive_spend_r vk sigma = poseidon_with_domain Domain.spend_randomness (vk ∷ sigma ∷ [])

  unfoldable pub derive_allow_r : ℤ → ℤ → ℤ
  derive_allow_r dvk sigma_a = poseidon_with_domain Domain.allowance_randomness (dvk ∷ sigma_a ∷ [])

  unfoldable pub derive_tx_blind : ℤ → ℤ → ℤ
  derive_tx_blind s sigma = poseidon_with_domain Domain.tx_blinding (s ∷ sigma ∷ [])

  unfoldable pub derive_ephemeral_r_e : ℤ → ℤ → Result ℤ
  derive_ephemeral_r_e vk sigma =
      let r_e = poseidon_with_domain Domain.ephemeral_key (vk ∷ sigma ∷ []) in
      if eqb_ℤ r_e (pos 0) then err zero_ephemeral else ok r_e

  unfoldable pub encrypt_amount : ℤ → ℤ → ℤ → ℤ
  encrypt_amount v_tx s sigma = fr_add v_tx (poseidon_with_domain Domain.tx_amount (s ∷ sigma ∷ []))

  unfoldable pub encrypt_balance : ℤ → ℤ → ℤ → ℤ
  encrypt_balance v_new vk sigma =
      fr_add v_new (poseidon_with_domain Domain.encrypted_balance (vk ∷ sigma ∷ []))

  unfoldable pub encrypt_allowance : ℤ → ℤ → ℤ → ℤ
  encrypt_allowance v_a dvk sigma_a =
      fr_add v_a (poseidon_with_domain Domain.encrypted_allowance (dvk ∷ sigma_a ∷ []))

  unfoldable pub encrypt_esc_dvk : ℤ → ℤ → ℤ → ℤ
  encrypt_esc_dvk dvk s op_i =
      fr_add dvk (poseidon_with_domain Domain.escrowed_delegation_viewing_key (s ∷ op_i ∷ []))

  unfoldable pub encrypt_auditor_sender_balance : ℤ → ℤ → ℤ → ℤ
  encrypt_auditor_sender_balance v_new s_as_x sigma =
      fr_add v_new (poseidon_with_domain Domain.auditor_sender (s_as_x ∷ sigma ∷ []))

  unfoldable pub encrypt_disclosure : ℤ → ℤ → ℤ → ℤ
  encrypt_disclosure v_tx s_disc_x nu =
      fr_add v_tx (poseidon_with_domain Domain.disclosure (s_disc_x ∷ nu ∷ []))

  unfoldable pub decrypt_with_domain : ℤ → ℤ → ℤ → ℤ → ℤ
  decrypt_with_domain ciphertext d a b = fr_mod (ciphertext -ℤ poseidon_with_domain d (a ∷ b ∷ []))

  module _ (L : PoseidonLaws P) where
    absorb-IsCanonical :
        (inputs : List ℤ) (s : Block) → IsCanonical s.0 → IsCanonical (absorb inputs s).0
    unfolding absorb
    absorb-IsCanonical [] s h = h
    absorb-IsCanonical (a ∷ []) s h = L.canonical_0 _
    absorb-IsCanonical (a ∷ b ∷ []) s h = L.canonical_0 _
    absorb-IsCanonical (a ∷ b ∷ c ∷ rest) s h = absorb-IsCanonical rest _ (L.canonical_0 _)

    -- Every digest is a field element.
    pub poseidon_with_domain-IsCanonical :
        (d : ℤ) (inputs : List ℤ) → IsCanonical (poseidon_with_domain d inputs)
    unfolding poseidon_with_domain
    poseidon_with_domain-IsCanonical d inputs = absorb-IsCanonical (d ∷ inputs) _ (omega arith)
