-- ===== src/State/Engine/Unsaved.antt =====
-- The actions of the engine that save nothing: asking for the status of a transaction.
use lumengate.Prelude.{
  ℕ, zero, suc, ◌≡◌, refl, ◌∙◌, Bool, true, false, Option, none, some, if◌then◌else◌,
}
use lumengate.Prelude.Result.{Result, ok, err, transaction_failed, confirmation_timeout, err}
use lumengate.Crypto.Poseidon.{Poseidon}
use lumengate.Crypto.Grumpkin.{Curve}
use Prim.Native.String.{String}
use text.Mathlib.Text.{◌==◌ as str_eq}
use lumengate.State.Engine.{StateEngineConfig, WaitOptions, waits_for, wait_transaction}
use lumengate.State.Engine.Status.{
  sleep, response_status, fetch_transaction_status, poll_status, wait_for_transaction_status,
}
use lumengate.State.Engine.Actions.{World, Action, pure, lift, continue, ◌>>=◌}

-- Returned or thrown, the store is as before.
pub record Unsaved {A : Type 0} (m : Action A) : Type 0 where
  pub same : (w : World) → (m w).1.store ≡ w.store

module _ {A B : Type 0} where
  continue-Unsaved :
      (r : Result A) (f : A → Action B) (w : World)
      → ((a : A) → Unsaved (f a))
      → (continue r f w).1.store ≡ w.store
  continue-Unsaved (ok a) f w h = (h a).same w
  continue-Unsaved (err e) f w h = refl

  bind-Unsaved :
      {m : Action A} {f : A → Action B} → Unsaved m → ((a : A) → Unsaved (f a)) → Unsaved (m >>= f)
  bind-Unsaved {m} {f} hm hf = record {
    same = λ w. continue-Unsaved (m w).0 f (m w).1 hf ∙ hm.same w;
  }

module _ {A : Type 0} where
  if-Unsaved : (b : Bool) {m n : Action A} → Unsaved m → Unsaved n → Unsaved (if b then m else n)
  if-Unsaved true hm hn = hm
  if-Unsaved false hm hn = hn

  lift-Unsaved : (r : Result A) → Unsaved (lift r)
  lift-Unsaved r = record { same = λ w. refl }

module _ (answer : ℕ → String → Result (Option (Option String))) where
  fetch-Unsaved : (hash : String) → Unsaved (fetch_transaction_status answer hash)
  unfolding fetch_transaction_status
  fetch-Unsaved hash =
      bind-Unsaved (record { same = λ w. refl })
        (λ response. lift-Unsaved (ok (response_status response)))

  poll_status-Unsaved :
      (hash : String) (interval left : ℕ) → Unsaved (poll_status answer hash interval left)
  unfolding poll_status
  poll_status-Unsaved hash interval zero = lift-Unsaved (err confirmation_timeout)
  poll_status-Unsaved hash interval (suc left) = bind-Unsaved (fetch-Unsaved hash) (λ status.
      if-Unsaved (str_eq status "SUCCESS") (lift-Unsaved (ok tt)) (
        if-Unsaved (str_eq status "FAILED") (lift-Unsaved (err transaction_failed)) (
          bind-Unsaved {m = sleep interval} (record { same = λ w. refl })
            (λ _. poll_status-Unsaved hash interval left))))

module _ {Point : Type 0} ⦃P : Poseidon⦄ ⦃C : Curve Point⦄ (cfg : StateEngineConfig Point) where
  waited-Unsaved :
      (o : WaitOptions) (after : Option String)
      → Unsaved (elim after [
        | none ↦ pure tt
        | some h ↦
            if waits_for o h then wait_for_transaction_status cfg.transaction_status h else pure tt
      ])
  unfolding wait_for_transaction_status
  waited-Unsaved o none = lift-Unsaved (ok tt)
  waited-Unsaved o (some hash) =
      if-Unsaved (waits_for o hash) (poll_status-Unsaved cfg.transaction_status hash 2000 45)
        (lift-Unsaved (ok tt))

  pub wait_transaction-Unsaved : (o : WaitOptions) → Unsaved (wait_transaction cfg o)
  unfolding wait_transaction
  wait_transaction-Unsaved o = waited-Unsaved o o.after_tx_hash
