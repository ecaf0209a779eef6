-- ===== src/State/Ledger.antt =====
-- The specification that the replay is measured against: what the token contract stores for an
-- account (two Pedersen commitments), and what each operation does to them. It stands beside the
-- model of the code and shares only the witnesses with it.
pub mod Openings
pub mod Step
pub mod Replay
use lumengate.Crypto.Poseidon.{Poseidon}
use lumengate.Prelude.{
  ℕ, ◌+◌, ◌<◌, ◌≡◌, true, List, [], ◌∷◌, if◌then◌else◌, pos_part, neg_part, ℤ, pos,
}
use lumengate.Prelude.Result.{ok}
use Prim.Native.String.{String}
use text.Mathlib.Text.{◌==◌ as str_eq}
use lumengate.Crypto.Field.{fr_modulus, IsCanonical}
use lumengate.Crypto.Grumpkin.{Curve, commit}
use lumengate.Crypto.Keys.{KeyPair}
use lumengate.Witness.Withdraw.{WithdrawParams, WithdrawWitness, build_withdraw_witness}
use lumengate.Witness.Transfer.{TransferParams, TransferWitness, build_transfer_witness}
use lumengate.Witness.Transfer.Laws.{NonnegScalar}
use lumengate.Chain.Events.{
  ConfidentialEvent, register, deposit, merge, withdraw, transfer, BaseEvent,
}
use lumengate.State.Types.{AccountState}
use lumengate.State.Apply.{apply}

pub record ChainAccount (Point : Type 0) : Type 0 where
  pub spendable : Point
  pub receiving : Point

-- An operation that the contract accepted, with the witness that its sender built.
pub data Operation (Point : Type 0) : Type 0 where
  registered : BaseEvent → String → ℕ → Operation Point
  deposited : BaseEvent → String → String → ℤ → Operation Point
  merged_in : BaseEvent → String → Operation Point
  withdrawn :
      BaseEvent → String → String → WithdrawParams Point → WithdrawWitness Point → Operation Point
  transferred :
      BaseEvent → String → String → TransferParams Point → TransferWitness Point → Operation Point

-- The event that the contract emits.
abbrev pub event_of : {Point : Type 0} → Operation Point → ConfidentialEvent Point
event_of (registered b account id) = register b account id
event_of (deposited b from to amount) = deposit b from to amount
event_of (merged_in b account) = merge b account
event_of (withdrawn b from to p w) = withdraw b (record {
  from = from;
  to = to;
  amount = p.amount;
  r_e = w.payload.r_e;
  sigma = w.payload.sigma;
  b_tilde = w.payload.b_tilde;
  b_aud_s = w.payload.b_aud_s;
})
event_of (transferred b from to p w) = transfer b (record {
  from = from;
  to = to;
  r_e = w.payload.r_e;
  v_tilde = w.payload.v_tilde;
  sigma = w.payload.sigma;
  b_tilde = w.payload.b_tilde;
  v_aud_r = w.payload.v_aud_r;
  r_aud_r = w.payload.r_aud_r;
  v_aud_s = w.payload.v_aud_s;
  b_aud_s = w.payload.b_aud_s;
})

abbrev pub events_of : {Point : Type 0} → List (Operation Point) → List (ConfidentialEvent Point)
events_of [] = []
events_of (op ∷ ops) = event_of op ∷ events_of ops

module _ {Point : Type 0} ⦃C : Curve Point⦄ where
  -- What an operation does to the account of `me`.
  abbrev pub effect : String → Operation Point → ChainAccount Point → ChainAccount Point
  effect me (registered b account id) c = c
  effect me (deposited b from to amount) c =
      if str_eq to me then record c { receiving = C.add c.receiving (commit amount (pos 0)) } else c
  effect me (merged_in b account) c =
      if str_eq account me
      then record { spendable = C.add c.spendable c.receiving; receiving = C.infinity }
      else c
  effect me (withdrawn b from to p w) c =
      if str_eq from me then record c { spendable = w.payload.c_spend_new } else c
  effect me (transferred b from to p w) c = record {
    spendable = if str_eq from me then w.payload.c_spend_new else c.spendable;
    receiving = if str_eq to me then C.add c.receiving w.payload.c_tx else c.receiving;
  }

  abbrev pub effects : String → List (Operation Point) → ChainAccount Point → ChainAccount Point
  effects me [] c = c
  effects me (op ∷ ops) c = effects me ops (effect me op c)

  -- The cached openings open the stored commitments, and are in range.
  pub record Opens (s : AccountState) (c : ChainAccount Point) : Type 0 where
    pub spend_v : neg_part s.spendable.v ≡ 0
    pub spend_r : IsCanonical s.spendable.r
    pub receive_v : neg_part s.receiving.v ≡ 0
    pub receive_r : IsCanonical s.receiving.r
    pub spend : commit s.spendable.v s.spendable.r ≡ c.spendable
    pub receive : commit s.receiving.v s.receiving.r ≡ c.receiving

module _ {Point : Type 0} ⦃P : Poseidon⦄ ⦃C : Curve Point⦄ (keys : KeyPair Point)
    (me : String) where
  -- An operation of `me` was built by the code with the keys of `me` from a value in range, one
  -- for `me` was built for those keys, and a deposit is not negative.
  abbrev pub IsHonest : Operation Point → Type 0
  IsHonest (registered b account id) = Unit
  IsHonest (deposited b from to amount) = neg_part amount ≡ 0
  IsHonest (merged_in b account) = Unit
  IsHonest (withdrawn b from to p w) =
      str_eq from me ≡ true
      → (p.keys ≡ keys)
        × IsCanonical p.v
        × ((fresh : ℤ) × (fresh' : ℤ) × (build_withdraw_witness p fresh fresh' ≡ ok w))
  IsHonest (transferred b from to p w) =
      ((fresh : ℤ) × (build_transfer_witness p fresh ≡ ok w))
      × IsCanonical p.v
      × NonnegScalar p.r_e
      × (str_eq from me ≡ true → p.keys ≡ keys)
      × (str_eq to me ≡ true → p.pvk_b ≡ keys.pvk)

  -- The sum of blindings that an operation makes stays below r.
  abbrev pub BlindingFits : AccountState → Operation Point → Type 0
  BlindingFits s (merged_in b account) =
      str_eq account me ≡ true → pos_part s.spendable.r + pos_part s.receiving.r < fr_modulus
  BlindingFits s (transferred b from to p w) =
      str_eq to me ≡ true → pos_part s.receiving.r + pos_part w.recipient_view.r_tx < fr_modulus
  BlindingFits s _ = Unit

  -- So it is for each operation, at the state in which the replay meets it.
  abbrev pub BlindingsFit : AccountState → List (Operation Point) → Type 0
  BlindingsFit s [] = Unit
  BlindingsFit s (op ∷ ops) =
      BlindingFits s op
      × ((s' : AccountState) → apply keys s (event_of op) ≡ ok s' → BlindingsFit s' ops)
