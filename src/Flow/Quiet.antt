-- ===== src/Flow/Quiet.antt =====
-- The steps of the flows that submit nothing, and the step that submits.
use lumengate.Prelude.{
  ℕ, ◌≡◌, refl, sym, ap, ◌∙◌, inl, inr, Bool, true, false, not, ◌&&◌, ◌||◌, Option, none, some, ◌∷◌,
  if◌then◌else◌, Bool-cases, eqb_ℤ, ℤ,
}
use lumengate.Prelude.Result.{Result, ok, err, err}
use lumengate.Crypto.Poseidon.{Poseidon}
use lumengate.Crypto.Grumpkin.{Curve}
use Prim.Native.String.{String}
use lumengate.Crypto.Keys.{KeyPair, address_to_field}
use lumengate.State.Engine.{rebuild_from_events, verify_against_chain}
use lumengate.State.Engine.Actions.{Step, pure, lift, continue, ◌>>=◌, value-eq}
use lumengate.Flow.{CtTx, OnChain, FlowConfig, FlowWorld, ask, run, counted, submit_tx}
use lumengate.Flow.Keys.{
  RegistrationStatus, read_ct_registered, read_ct_registration_status, keep_or_create, match_keys,
  account_on_chain, get_or_create_ct_keys, resolve_ct_keys, ct_state_engine,
  initialize_ct_state_from_events, or_false, is_some, state_registered,
}

module _ {Point : Type 0} where
  -- Returned or thrown, nothing was submitted.
  pub record Quiet {A : Type 0} (m : Step (FlowWorld Point) A) : Type 0 where
    pub same : (w : FlowWorld Point) → (m w).1.submitted ≡ w.submitted

  module _ {A B : Type 0} where
    continue-Quiet :
        (r : Result A) (f : A → Step (FlowWorld Point) B) (w : FlowWorld Point)
        → ((a : A) → Quiet (f a))
        → (continue r f w).1.submitted ≡ w.submitted
    continue-Quiet (ok a) f w h = (h a).same w
    continue-Quiet (err e) f w h = refl

    pub bind-Quiet :
        (m : Step (FlowWorld Point) A) {f : A → Step (FlowWorld Point) B}
        → Quiet m
        → ((a : A) → Quiet (f a))
        → Quiet (m >>= f)
    bind-Quiet m {f} hm hf = record { same = λ w. continue-Quiet (m w).0 f (m w).1 hf ∙ hm.same w }

  module _ {A : Type 0} where
    pub still :
        {m : Step (FlowWorld Point) A}
        → ((w : FlowWorld Point) → (m w).1.submitted ≡ w.submitted)
        → Quiet m
    still h = record { same = h }

    pub pure-Quiet : (a : A) → Quiet (pure a)
    pure-Quiet a = still (λ w. refl)

    pub if-Quiet :
        (b : Bool) {m n : Step (FlowWorld Point) A} → Quiet m → Quiet n → Quiet (if b then m else n)
    if-Quiet true hm hn = hm
    if-Quiet false hm hn = hn

    -- A quiet step that returned.
    pub submitted-eq :
        (m : Step (FlowWorld Point) A) (w : FlowWorld Point) {r : Result A} {w' : FlowWorld Point}
        → Quiet m
        → m w ≡ (r, w')
        → w'.submitted ≡ w.submitted
    submitted-eq m w h e = ap (λ (p : Result A × FlowWorld Point). p.1.submitted) (sym e) ∙ h.same w

  pub ask-Quiet : {A : Type 0} (call : ℕ → Result A) → Quiet (ask call)
  ask-Quiet call = still (λ w. refl)

  -- What submit_tx leaves when it returns.
  pub submit_tx-submitted :
      (cfg : FlowConfig Point) (tx : CtTx Point) (w : FlowWorld Point) {hash : String}
      {w' : FlowWorld Point}
      → submit_tx cfg tx w ≡ (ok hash, w')
      → w'.submitted ≡ tx ∷ w.submitted
  unfolding submit_tx
  submit_tx-submitted cfg tx w {hash} {w'} e = go (cfg.submit w.engine.calls tx) e
    where
      go :
          (r : Result String)
          → ◌≡◌ {A = Result String × FlowWorld Point}
              (elim r as (λ _. Result String × FlowWorld Point) [
                | err x ↦ (err x, counted w)
                | ok h ↦ (ok h, record (counted w) { submitted = tx ∷ w.submitted })
              ])
              (ok hash, w')
          → w'.submitted ≡ tx ∷ w.submitted
      go (err x) h = cc (value-eq h)
      go (ok x) h = ap (λ (p : Result String × FlowWorld Point). p.1.submitted) (sym h)

  module _ (cfg : FlowConfig Point) where
    pub read_ct_registered-Quiet : (account : String) → Quiet (read_ct_registered cfg account)
    unfolding read_ct_registered
    read_ct_registered-Quiet account = still (λ w. refl)

    read_ct_registration_status-Quiet : Quiet (read_ct_registration_status cfg)
    unfolding read_ct_registration_status
    read_ct_registration_status-Quiet = still (λ w.
        let on_chain = or_false (cfg.is_registered w.engine.calls cfg.smart_account) in
        elim (Bool-cases (on_chain || state_registered cfg w)) [
          | inl y ↦ rw y refl
          | inr n ↦ rw n refl
        ])

module _ {Point : Type 0} ⦃P : Poseidon⦄ ⦃C : Curve Point⦄ (cfg : FlowConfig Point) where
  keep_or_create-Quiet :
      (addr_f : ℤ) (keys : Option (KeyPair Point)) (registered : Bool)
      → Quiet (keep_or_create cfg addr_f keys registered)
  keep_or_create-Quiet addr_f none registered = still (λ w. refl)
  keep_or_create-Quiet addr_f (some existing) registered =
      if-Quiet (eqb_ℤ existing.addr_f addr_f) (still (λ w. refl))
        (if-Quiet registered (still (λ w. refl)) (still (λ w. refl)))

  pub get_or_create_ct_keys-Quiet : Quiet (get_or_create_ct_keys cfg)
  unfolding get_or_create_ct_keys
  get_or_create_ct_keys-Quiet = still (λ w.
      (bind-Quiet (lift (address_to_field cfg.token)) (still (λ w'. refl))
          (λ addr_f. keep_or_create-Quiet addr_f w.keys w.registered_locally)).same
        w)

  match_keys-Quiet :
      (status : RegistrationStatus) (onchain : Option (OnChain Point))
      (existing : Option (KeyPair Point))
      → Quiet (match_keys cfg status onchain existing)
  match_keys-Quiet status none (some existing) = still (λ w. refl)
  match_keys-Quiet status (some onchain) (some existing) =
      if-Quiet (C.equals existing.pvk onchain.viewing_public_key) (still (λ w. refl))
        (still (λ w. refl))
  match_keys-Quiet status onchain none =
      if-Quiet status.local (still (λ w. refl)) (still (λ w. refl))

  pub resolve_ct_keys-Quiet : Quiet (resolve_ct_keys cfg)
  unfolding resolve_ct_keys
  resolve_ct_keys-Quiet = still (λ w.
      (bind-Quiet (read_ct_registration_status cfg) (read_ct_registration_status-Quiet cfg)
          (λ status. if-Quiet (not status.registered) get_or_create_ct_keys-Quiet (
            bind-Quiet (account_on_chain cfg status)
              (if-Quiet status.on_chain (still (λ w. refl)) (still (λ w. refl)))
              (λ onchain.
                if-Quiet (status.on_chain && not (is_some onchain)) get_or_create_ct_keys-Quiet
                  (match_keys-Quiet status onchain w.keys))))).same
        w)

  pub ct_state_engine-Quiet : Quiet (ct_state_engine cfg)
  unfolding ct_state_engine
  ct_state_engine-Quiet =
      bind-Quiet (resolve_ct_keys cfg) resolve_ct_keys-Quiet (λ keys. still (λ w. refl))

  pub initialize-Quiet : Quiet (initialize_ct_state_from_events cfg)
  unfolding initialize_ct_state_from_events
  initialize-Quiet = bind-Quiet (ct_state_engine cfg) ct_state_engine-Quiet (λ engine.
      bind-Quiet (run (rebuild_from_events engine)) (still (λ w. refl)) (λ s.
        bind-Quiet (run (verify_against_chain engine)) (still (λ w. refl))
          (λ v. still (λ w. refl))))
