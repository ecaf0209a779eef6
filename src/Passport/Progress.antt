-- ===== src/Passport/Progress.antt =====
-- What the product's steps and its readiness say of the input.
use lumengate.Prelude.{
  ℕ, suc, ◌-◌, ◌<◌, ◌≡◌, refl, sym, ap, ◌∙◌, ◌≢◌, inl, inr, Bool, true, false, not, ◌&&◌, ◌||◌,
  Option, none, some, List, [], ◌∷◌, map, arith, ◌==◌, if◌then◌else◌, ==_iff, Bool-cases, length,
  take, All,
}
use mathlib.Core.Path.{ap₂}
use lumengate.Passport.Scope.{truthy, or_else}
use lumengate.Passport.Lifecycle.{is_ready}
use lumengate.Passport.Steps.{
  ProductInput, ProductStep, StepState, complete, current, upcoming, Draft, drafts, flags_of,
  find_incomplete, current_index, state_at, with_states, build_product_steps, get_product_readiness,
  ready_tone, is_some, nullish, is_consumed,
}

abbrev pub is_complete : ProductStep → Bool
is_complete step = elim step.state [ complete ↦ true | current ↦ false | upcoming ↦ false ]

abbrev IsNotCurrent : StepState → Type 0
IsNotCurrent state = state ≢ current

-- Complete steps, then at most one that is current, and behind it none that is.
abbrev pub IsProgress : List StepState → Type 0
IsProgress [] = Unit
IsProgress (complete ∷ states) = IsProgress states
IsProgress (current ∷ states) = All IsNotCurrent states
IsProgress (upcoming ∷ states) = upcoming ≡ complete

abbrev pub states : List ProductStep → List StepState
states = map (λ step. step.state)

later :
    (current_at index : ℕ) (flag : Bool)
    → current_at < index
    → IsNotCurrent (state_at current_at index flag)
later current_at index true h = λ e. cc
later current_at index false h = elim (Bool-cases (index == current_at)) [
  | inl y ↦ let e = (==_iff index current_at).0 y in absurd (omega arith)
  | inr n ↦ rw n (λ e. cc)
]

completed :
    (current_at index : ℕ) (draft : Draft) (flag : Bool)
    → is_complete (record {
      id = draft.0;
      label = draft.1;
      description = draft.2;
      state = state_at current_at index flag;
    })
      ≡ flag
completed current_at index draft true = refl
completed current_at index draft false = elim (Bool-cases (index == current_at)) [
  | inl y ↦ rw y refl
  | inr n ↦ rw n refl
]

-- Behind the current step, none is current.
with_states-All :
    (current_at index : ℕ) (flags : List Bool) (steps : List Draft)
    → current_at < index
    → All IsNotCurrent (states (with_states current_at index flags steps))
unfolding with_states
with_states-All current_at index flags [] h = tt
with_states-All current_at index [] (draft ∷ steps) h =
    (later current_at index false h, with_states-All current_at (suc index) [] steps (omega arith))
with_states-All current_at index (flag ∷ flags) (draft ∷ steps) h = (
  later current_at index flag h,
  with_states-All current_at (suc index) flags steps (omega arith),
)

with_states-IsProgress :
    (index other : ℕ) (flags : List Bool) (steps : List Draft)
    → length flags ≡ length steps
    → IsProgress
        (states (with_states (or_else (find_incomplete index flags) other) index flags steps))
unfolding with_states find_incomplete
with_states-IsProgress index other [] [] h = tt
with_states-IsProgress index other [] (draft ∷ steps) h = absurd (omega arith)
with_states-IsProgress index other (flag ∷ flags) [] h = absurd (omega arith)
with_states-IsProgress index other (true ∷ flags) (draft ∷ steps) h =
    with_states-IsProgress (suc index) other flags steps (omega arith)
with_states-IsProgress index other (false ∷ flags) (draft ∷ steps) h =
    rw ((==_iff index index).1 refl) (with_states-All index (suc index) flags steps (omega arith))

map-with_states :
    (current_at index : ℕ) (flags : List Bool) (steps : List Draft)
    → length flags ≡ length steps
    → map is_complete (with_states current_at index flags steps) ≡ flags
unfolding with_states
map-with_states current_at index [] [] h = refl
map-with_states current_at index [] (draft ∷ steps) h = absurd (omega arith)
map-with_states current_at index (flag ∷ flags) [] h = absurd (omega arith)
map-with_states current_at index (flag ∷ flags) (draft ∷ steps) h =
    ap₂ (λ b l. b ∷ l) (completed current_at index draft flag)
      (map-with_states current_at (suc index) flags steps (omega arith))

-- The steps that the product shows are complete exactly where their conditions hold, and of them
-- at most one is current: the one behind the first complete ones, if any is left.
pub build_product_steps-IsProgress :
    (input : ProductInput)
    → IsProgress (states (build_product_steps input))
      × (map is_complete (build_product_steps input) ≡ flags_of input)
unfolding build_product_steps current_index flags_of
build_product_steps-IsProgress input =
    let flags = flags_of input in
    (
      with_states-IsProgress 0 (length flags - 1) flags (drafts input.passkey_first) refl,
      map-with_states (current_index flags) 0 flags (drafts input.passkey_first) refl,
    )

-- The account of the first step is one of the two addresses.
nullish-some :
    (settlement address : Option (List ℕ))
    → is_some (truthy (nullish settlement address)) ≡ true
    → is_some (truthy settlement) || is_some (truthy address) ≡ true
nullish-some none address h = h
nullish-some (some a) address h = rw h refl

account_guards :
    (first account smart wallet : Bool)
    → (account ≡ true → smart || wallet ≡ true)
    → (if first then account else wallet) ≡ true
    → (first && not smart && not wallet ≡ false) × (not first && not wallet ≡ false)
account_guards true account true wallet any h = (refl, refl)
account_guards true account false true any h = (refl, refl)
account_guards true account false false any h = let e : false ≡ true = any h in cc
account_guards false account smart true any h = (refl, refl)
account_guards false account smart false any h = cc

credential_guards : (c k : Bool) → c && not k ≡ true → (k ≡ false) × (not c ≡ false)
credential_guards true false h = (refl, refl)
credential_guards true true h = cc
credential_guards false k h = cc

proof_guard : (p r : Bool) → p && r ≡ true → not p || not r ≡ false
proof_guard true true h = refl
proof_guard true false h = cc
proof_guard false r h = cc

four_inj :
    {a b c d : Bool}
    → a ∷ b ∷ c ∷ d ∷ [] ≡ true ∷ true ∷ true ∷ true ∷ []
    → (a ≡ true) × (b ≡ true) × (c ≡ true)
four_inj h = (cc, cc, cc)

-- Where the first four of the steps that buildProductSteps shows are complete,
-- getProductReadiness says of the same input that the product is ready.
pub get_product_readiness-tone :
    (input : ProductInput)
    → take 4 (map is_complete (build_product_steps input)) ≡ true ∷ true ∷ true ∷ true ∷ []
    → (get_product_readiness input).tone ≡ ready_tone
unfolding get_product_readiness flags_of
get_product_readiness-tone input h =
    let e = ap (take 4) (sym (build_product_steps-IsProgress input).1) ∙ h in
    let (account, passported, proven) = four_inj e in
    let (first, second) =
      account_guards input.passkey_first _ (is_some (truthy input.settlement_address))
        (is_some (truthy input.address)) (nullish-some input.settlement_address input.address)
        account in
    let (unspent, held) =
      credential_guards (is_some input.credential) (is_consumed input.lifecycle) passported in
    rw first (
      rw second (
        rw unspent (
          rw held (rw (proof_guard (is_some input.proof) (is_ready input.lifecycle) proven) refl))))
