-- ===== src/Passport/Spent.antt =====
-- `readNullifierSpent` of contracts.ts. Building the transaction and simulating it are calls of the
-- Stellar SDK, which are a parameter: what is asked of the policy verifier, to the error of the
-- simulation or the value that it has, if any. `Buffer.from(digits, 'hex')` and `Number` are the SDK
-- side's too, so a call keeps the digits and the ids as texts.

-- The contract's two functions: the policy, the asset and the action of a scope, and the digits of
-- the nullifier.
use lumengate.Prelude.{ℕ, Bool, false, ◌&&◌, Option, none, some, List, ◌∷◌, ◌==◌, if◌then◌else◌}
use lumengate.Prelude.Result.{Result, ok, ◌>>=◌}

pub data VerifierCall : Type 0 where
  is_scoped_nullifier_spent : List ℕ → List ℕ → List ℕ → List ℕ → VerifierCall
  is_nullifier_spent : List ℕ → List ℕ → VerifierCall

-- `.replace(/^0x/, '')`.
unfoldable pub without_0x : List ℕ → List ℕ
without_0x (c ∷ c' ∷ s) = if c == b'0' && c' == b'x' then s else c ∷ c' ∷ s
without_0x s = s

abbrev pub verifier_call : List ℕ → List ℕ → Option (List ℕ × List ℕ) → VerifierCall
verifier_call policy digits (some (asset_id, action_id)) =
    is_scoped_nullifier_spent policy asset_id action_id digits
verifier_call policy digits none = is_nullifier_spent policy digits

abbrev or_configured : List ℕ → Option (List ℕ) → List ℕ
or_configured policy none = policy
or_configured policy (some p) = p

-- `if (!val) return false; return Boolean(scValToNative(val))`.
abbrev pub spent_value : Option Bool → Bool
spent_value none = false
spent_value (some spent) = spent

module _ (config_policy_id : List ℕ) (simulate : VerifierCall → Result (Option Bool)) where
  -- The nullifier, the policy and the scope.
  unfoldable pub read_nullifier_spent :
      List ℕ → Option (List ℕ) → Option (List ℕ × List ℕ) → Result Bool
  unfolding without_0x
  read_nullifier_spent nullifier_hex policy_id scope = do
    val ←
        simulate (
          verifier_call (or_configured config_policy_id policy_id) (without_0x nullifier_hex) scope)
    ok (spent_value val)

  -- As the callers with a scope ask: the nullifier, the policy, the asset and the action.
  abbrev pub read_scoped : List ℕ → List ℕ → List ℕ → List ℕ → Result Bool
  read_scoped nullifier_hex policy_id asset_id action_id =
      read_nullifier_spent nullifier_hex (some policy_id) (some (asset_id, action_id))
