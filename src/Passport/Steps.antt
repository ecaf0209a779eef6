-- ===== src/Passport/Steps.antt =====
-- productState.ts: the steps and the readiness that the product shows.
use lumengate.Prelude.{
  ℕ, suc, ◌-◌, Bool, true, false, not, ◌&&◌, ◌||◌, Option, none, some, List, [], ◌∷◌, ◌==◌,
  if◌then◌else◌, length,
}
use Prim.Native.String.{String}
use lumengate.Passport.Scope.{Credential, truthy, or_else}
use lumengate.Passport.Proof.{ProofBundle}
use lumengate.Passport.Lifecycle.{ProofLifecycle, absent, ready, consumed, invalid, is_ready}

pub data ProductStepId : Type 0 where
  connect verify passport invest receipt : ProductStepId

pub data StepState : Type 0 where
  complete current upcoming : StepState

pub record ProductStep : Type 0 where
  pub id : ProductStepId
  pub label : String
  pub description : String
  pub state : StepState

pub data Tone : Type 0 where
  default_tone ready_tone warning : Tone

pub record ProductReadiness : Type 0 where
  pub title : String
  pub description : String
  pub cta : String
  pub href : String
  pub tone : Tone

-- The input of both functions; `passkeyFirst` and `hasSettlement` are false where they are absent.
pub record ProductInput : Type 0 where
  pub address : Option (List ℕ)
  pub settlement_address : Option (List ℕ)
  pub credential : Option Credential
  pub proof : Option ProofBundle
  pub lifecycle : ProofLifecycle
  pub has_settlement : Bool
  pub passkey_first : Bool

abbrev pub is_some {ℓ} : {A : Type ℓ} → Option A → Bool
is_some none = false
is_some (some a) = true

-- `settlementAddress ?? address`.
abbrev pub nullish : Option (List ℕ) → Option (List ℕ) → Option (List ℕ)
nullish none other = other
nullish (some a) other = some a

abbrev pub is_consumed : ProofLifecycle → Bool
is_consumed consumed = true
is_consumed absent = false
is_consumed ready = false
is_consumed invalid = false

unfoldable pub flags_of : ProductInput → List Bool
flags_of input =
    let has_account = is_some (truthy (nullish input.settlement_address input.address)) in
    let proven = is_some input.proof && is_ready input.lifecycle in
    (if input.passkey_first then has_account else is_some (truthy input.address))
    ∷ (is_some input.credential && not (is_consumed input.lifecycle))
    ∷ proven
    ∷ proven
    ∷ input.has_settlement
    ∷ []

-- `findIndex((flag) => !flag)`, from an index.
unfoldable pub find_incomplete : ℕ → List Bool → Option ℕ
find_incomplete index [] = none
find_incomplete index (flag ∷ flags) =
    let rest = find_incomplete (suc index) flags in if flag then rest else some index

unfoldable pub current_index : List Bool → ℕ
unfolding find_incomplete
current_index flags = or_else (find_incomplete 0 flags) (length flags - 1)

abbrev pub state_at : ℕ → ℕ → Bool → StepState
state_at current_at index flag =
    if flag then complete else if index == current_at then current else upcoming

-- The id, the label and the description of a step.
abbrev pub Draft : Type 0
Draft = ProductStepId × String × String

abbrev pub drafts : Bool → List Draft
drafts passkey_first =
    (if passkey_first
      then (connect, "Passkey", "Create your smart account.")
      else (connect, "Connect", "Link your Stellar wallet."))
    ∷ (verify, "Verify", "Confirm you meet the policy.")
    ∷ (passport, "Passport", "Receive your private passport.")
    ∷ (invest, "Invest", "Choose a regulated offering.")
    ∷ (receipt, "Receipt", "Keep your settlement record.")
    ∷ []

-- `steps.map`, with the flag of each step; one beyond the flags is not set.
unfoldable pub with_states : ℕ → ℕ → List Bool → List Draft → List ProductStep
with_states current_at index flags [] = []
with_states current_at index [] (draft ∷ steps) =
    record {
      id = draft.0;
      label = draft.1;
      description = draft.2;
      state = state_at current_at index false;
    }
    ∷ with_states current_at (suc index) [] steps
with_states current_at index (flag ∷ flags) (draft ∷ steps) =
    record {
      id = draft.0;
      label = draft.1;
      description = draft.2;
      state = state_at current_at index flag;
    }
    ∷ with_states current_at (suc index) flags steps

unfoldable pub build_product_steps : ProductInput → List ProductStep
unfolding flags_of current_index with_states
build_product_steps input =
    let flags = flags_of input in
    with_states (current_index flags) 0 flags (drafts input.passkey_first)

unfoldable pub get_product_readiness : ProductInput → ProductReadiness
get_product_readiness input =
    let has_funding_wallet = is_some (truthy input.address) in
    let has_smart_account = is_some (truthy input.settlement_address) in
    if input.passkey_first && not has_smart_account && not has_funding_wallet
    then record {
      title = "Start with your passkey";
      description =
          "Create a smart account with WebAuthn — connect a wallet only when you need to add funds.";
      cta = "Create passkey account";
      href = "/app/verify";
      tone = default_tone;
    }
    else if not input.passkey_first && not has_funding_wallet
    then record {
      title = "Private investing on Stellar";
      description =
          "Connect once, verify eligibility privately, then access regulated investments.";
      cta = "Connect wallet";
      href = "/app/verify";
      tone = default_tone;
    }
    else if is_consumed input.lifecycle
    then record {
      title = "One asset scope was used";
      description =
          "Renew only the scope you need on Passport. Other assets may still be ready to use.";
      cta = "Renew passport";
      href = "/app/verify#recovery-credential";
      tone = warning;
    }
    else if not (is_some input.credential)
    then record {
      title = "Verify your eligibility";
      description =
          "Get a private passport that proves you are allowed without revealing who you are.";
      cta = "Start verification";
      href = "/app/verify";
      tone = default_tone;
    }
    else if not (is_some input.proof) || not (is_ready input.lifecycle)
    then record {
      title = "Finish your private passport";
      description =
          "Confirm eligibility in your browser — takes a few seconds and stays on your device.";
      cta = "Confirm eligibility";
      href = "/app/verify";
      tone = default_tone;
    }
    else record {
      title = "You are ready to invest";
      description =
          "Your passport is active for one compliant settlement. Choose an offering or send privately.";
      cta = "Browse investments";
      href = "/app/marketplace";
      tone = ready_tone;
    }
