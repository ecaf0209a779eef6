-- ===== src/Prelude/Result.antt =====
-- What throws returns `Result`: `Error` has a constructor for each `throw` of the modelled code,
-- and for the throws of the libraries that it calls.
use mathlib.Core.Path.{◌≡◌, refl}
use mathlib.Core.Bool.{Bool, true, false}
use lumengate.Prelude.Tests.{if◌then◌else◌}

-- The steps of the disclosure protocol at which disclosure/verify.ts refuses.
pub data VerifyStage : Type 0 where
  vk_pinning resolve_event resolve_account verify_proof decrypt : VerifyStage

pub data Error : Type 0 where
  -- crypto/field.ts
  value_out_of_range odd_length_hex bad_bigint : Error
  -- crypto/grumpkin.ts; `not_on_curve` is thrown by `fromAffine` of @noble/curves
  degenerate_key bad_point_length not_on_curve : Error
  -- crypto/poseidon2.ts and crypto/address.ts
  zero_ephemeral bad_strkey_length : Error
  -- witness/*.ts
  negative_amount exceeds_balance not_this_account r_e_mismatch : Error
  -- chain/*.ts; `rpc_error` stands for whatever the RPC client throws
  no_start missing_field rpc_error : Error
  -- disclosure/verify.ts
  disclosure_verify : VerifyStage → Error
  -- state/engine.ts
  sync_timeout transaction_failed confirmation_timeout : Error
  -- confidentialFlow.ts
  keys_locked keys_mismatch local_keys_missing keys_missing not_positive : Error
  recipient_unregistered recipient_unreadable spendable_syncing receiving_syncing : Error
  insufficient sender_missing nothing_to_merge nothing_shielded shield_mismatch : Error
  -- assetAmount.ts
  invalid_amount too_many_decimals : Error
  -- assetScope.ts and scopeNullifier.ts
  missing_note_secret missing_nullifier nullifier_spent : Error
  -- scripts/generate_prover_toml.js
  roots_missing root_mismatch revocation_mismatch : Error

pub data Result {ℓ} (Value : Type ℓ) : Type ℓ where
  ok : Value → Result Value
  err : Error → Result Value

module _ {ℓ κ} {Value : Type ℓ} {Next : Type κ} where
  infixl 5 ◌>>=◌
  abbrev pub ◌>>=◌ : Result Value → (Value → Result Next) → Result Next
  ok value >>= next = next value
  err thrown >>= next = err thrown

  -- A chain that returned: each part did.
  pub >>=-eq-ok :
      (r : Result Value) (next : Value → Result Next) {last : Next}
      → r >>= next ≡ ok last
      → (value : Value) × (r ≡ ok value) × (next value ≡ ok last)
  >>=-eq-ok (ok value) next returned = (value, refl, returned)
  >>=-eq-ok (err thrown) next returned = cc

pub ok_inj {ℓ} : {A : Type ℓ} {a b : A} → ok a ≡ ok b → a ≡ b
ok_inj h = cc

-- A chain that returned passed its guard.
pub guard-eq-ok {ℓ} :
    {A : Type ℓ} (refused : Bool) (e : Error) (rest : Result A) {a : A}
    → (if refused then err e else rest) ≡ ok a
    → (refused ≡ false) × (rest ≡ ok a)
guard-eq-ok true e rest h = cc
guard-eq-ok false e rest h = (refl, h)
