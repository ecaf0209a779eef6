-- ===== src/State/Apply.antt =====
-- `decryptIncoming`, `openSpendable` and `apply` of state/engine.ts: what one event does to the state.
use lumengate.Crypto.Poseidon.{Poseidon}
use lumengate.Prelude.Result.{◌>>=◌}
use lumengate.Prelude.{
  ℕ, max, Bool, true, false, none, some, List, [], ◌∷◌, if◌then◌else◌, ◌+ℤ◌, ◌-ℤ◌, ℤ,
}
use lumengate.Prelude.Result.{Result, ok}
use Prim.Native.String.{String}
use text.Mathlib.Text.{◌==◌ as str_eq}
use lumengate.Crypto.Domain
use lumengate.Crypto.Field.{fr_mod, fr_add}
use lumengate.Crypto.Poseidon.{poseidon_with_domain, derive_tx_blind, derive_spend_r}
use lumengate.Crypto.Grumpkin.{Curve, ecdh}
use lumengate.Crypto.Keys.{KeyPair}
use lumengate.Chain.Events.{ConfidentialEvent, register, deposit, merge, withdraw, transfer, base}
use lumengate.State.Types.{Opening, AccountState, zero_opening}

-- `hashes?.includes(h)`.
unfoldable pub includes : List String → String → Bool
includes [] h = false
includes (x ∷ hashes) h = if str_eq x h then true else includes hashes h

abbrev pub is_optimistic : AccountState → String → Bool
is_optimistic s h = elim s.optimistic_tx_hashes [ none ↦ false | some hashes ↦ includes hashes h ]

-- `state.syncedLedger = Math.max(state.syncedLedger, ledger)`.
abbrev pub reach_ledger : ℕ → AccountState → AccountState
reach_ledger ledger s = record s { synced_ledger = max s.synced_ledger ledger }

abbrev pub merged : AccountState → AccountState
merged s = record s {
  spendable = record { v = s.spendable.v +ℤ s.receiving.v; r = fr_add s.spendable.r s.receiving.r };
  receiving = zero_opening;
}

abbrev pub credited : AccountState → Opening → AccountState
credited s tx = record s {
  receiving = record { v = s.receiving.v +ℤ tx.v; r = fr_add s.receiving.r tx.r };
}

module _ {Point : Type 0} ⦃P : Poseidon⦄ ⦃C : Curve Point⦄ where
  unfoldable pub decrypt_incoming : KeyPair Point → Point → ℤ → ℤ → Result Opening
  decrypt_incoming keys r_e v_tilde sigma = do
    s ← ecdh keys.vk r_e
    let v_tx = fr_mod (v_tilde -ℤ poseidon_with_domain Domain.tx_amount (s ∷ sigma ∷ []))
    ok (record { v = v_tx; r = derive_tx_blind s sigma })

  unfoldable pub open_spendable : KeyPair Point → ℤ → ℤ → Opening
  open_spendable keys b_tilde sigma = record {
    v = fr_mod (b_tilde -ℤ poseidon_with_domain Domain.encrypted_balance (keys.vk ∷ sigma ∷ []));
    r = derive_spend_r keys.vk sigma;
  }

  -- The `switch` of `apply`; a throw leaves the state behind, which is saved only after the loop.
  unfoldable pub apply_effect :
      KeyPair Point → AccountState → ConfidentialEvent Point → Result AccountState
  apply_effect keys s (register b account _) =
      ok (if str_eq account s.address then record s { registered = true } else s)
  apply_effect keys s (deposit b from to amount) = ok (
      if str_eq to s.address
      then record s { receiving = record { v = s.receiving.v +ℤ amount; r = s.receiving.r } }
      else s)
  apply_effect keys s (merge b account) = ok (if str_eq account s.address then merged s else s)
  apply_effect keys s (withdraw b ev) = ok (
      if str_eq ev.from s.address
      then record s { spendable = open_spendable keys ev.b_tilde ev.sigma }
      else s)
  apply_effect keys s (transfer b ev) =
      let s' =
        if str_eq ev.from s.address
        then record s { spendable = open_spendable keys ev.b_tilde ev.sigma }
        else s in
      if str_eq ev.to s.address
      then (do tx ← decrypt_incoming keys ev.r_e ev.v_tilde ev.sigma; ok (credited s' tx))
      else ok s'

  unfoldable pub apply :
      KeyPair Point → AccountState → ConfidentialEvent Point → Result AccountState
  apply keys s ev =
      if is_optimistic s (base ev).tx_hash
      then ok (reach_ledger (base ev).ledger s)
      else do s' ← apply_effect keys s ev; ok (reach_ledger (base ev).ledger s')

  -- `for (const ev of events) this.apply(state, ev)`.
  unfoldable pub apply_all :
      KeyPair Point → AccountState → List (ConfidentialEvent Point) → Result AccountState
  apply_all keys s [] = ok s
  apply_all keys s (ev ∷ events) = do s' ← apply keys s ev; apply_all keys s' events
