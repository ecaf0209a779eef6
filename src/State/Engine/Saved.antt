-- ===== src/State/Engine/Saved.antt =====
-- The states that the engine saves and returns.
use lumengate.Prelude.{
  ◌≡◌, refl, sym, ap, ◌∙◌, inl, inr, Option, none, some, List, [], ◌∷◌, arith, if◌then◌else◌,
  Bool-cases,
}
use lumengate.Prelude.Result.{Result, ok, err, err, >>=-eq-ok, ok_inj}
use lumengate.Crypto.Poseidon.{Poseidon}
use Prim.Native.String.{String}
use text.Mathlib.Text.{◌==◌ as str_eq}
use text.Mathlib.TextEquality.{eq_iff}
use lumengate.Crypto.Grumpkin.{Curve}
use lumengate.Crypto.Keys.{KeyPair}
use lumengate.Chain.Events.{
  ConfidentialEvent, FetchEventsResult, register, deposit, merge, withdraw, transfer, base,
}
use lumengate.State.Types.{AccountState, MemoryStore, fresh_state, load, put, save}
use lumengate.State.Apply.{apply_effect, apply, apply_all, reach_ledger, is_optimistic}
use lumengate.State.Engine.{
  StateEngineConfig, set_cursor, current_state, replay_from, sync, rebuild_from_events, or_fresh,
  keep_replay,
}
use lumengate.State.Engine.Status.{ask}
use mathlib.Core.Path.{subst}
use lumengate.State.Engine.Actions.{World, bind-eq-ok}

pub load-put :
    (key key' : String) (s : AccountState) (store : MemoryStore)
    → load key' (put key s store) ≡ (if str_eq key key' then some s else load key' store)
unfolding load put
load-put key key' s [] = refl
load-put key key' s ((k, t) ∷ store) =
    ground (arith, load-put key key' s store, eq_iff k key, eq_iff k key', eq_iff key key')

set_cursor-address :
    (cursor : Option String) (s : AccountState) → (set_cursor cursor s).address ≡ s.address
set_cursor-address cursor s = ground arith

module _ {Point : Type 0} ⦃P : Poseidon⦄ ⦃C : Curve Point⦄ where
  apply_effect-address :
      (keys : KeyPair Point) (s s' : AccountState) (ev : ConfidentialEvent Point)
      → apply_effect keys s ev ≡ ok s'
      → s'.address ≡ s.address
  unfolding apply_effect
  apply_effect-address keys s s' (register b account id) h = ground arith
  apply_effect-address keys s s' (deposit b from to amount) h = ground arith
  apply_effect-address keys s s' (merge b account) h = ground arith
  apply_effect-address keys s s' (withdraw b ev) h = ground arith
  apply_effect-address keys s s' (transfer b ev) h = ground arith

  pub apply-address :
      (keys : KeyPair Point) (s s' : AccountState) (ev : ConfidentialEvent Point)
      → apply keys s ev ≡ ok s'
      → s'.address ≡ s.address
  unfolding apply
  apply-address keys s s' ev h = elim (Bool-cases (is_optimistic s (base ev).tx_hash)) [
    | inl y ↦ ap (λ (r : AccountState). r.address) (sym (ok_inj (rw y at h)))
    | inr n ↦
        let (t, e, k) = >>=-eq-ok (apply_effect keys s ev) _ (rw n at h) in
        ap (λ (r : AccountState). r.address) (sym (ok_inj k)) ∙ apply_effect-address keys s t ev e
  ]

  apply_all-address :
      (keys : KeyPair Point) (s s' : AccountState) (events : List (ConfidentialEvent Point))
      → apply_all keys s events ≡ ok s'
      → s'.address ≡ s.address
  unfolding apply_all
  apply_all-address keys s s' [] h = ap (λ (r : AccountState). r.address) (sym (ok_inj h))
  apply_all-address keys s s' (ev ∷ events) h =
      let (t, e, k) = >>=-eq-ok (apply keys s ev) _ h in
      apply_all-address keys t s' events k ∙ apply-address keys s t ev e

  module _ (cfg : StateEngineConfig Point) where
    -- The store holds the account's state under its own address.
    abbrev pub IsKeyed : World → Type 0
    IsKeyed w = (current_state cfg w).address ≡ cfg.address

    pub current-save :
        (s : AccountState) (w : World)
        → s.address ≡ cfg.address
        → current_state cfg (record w { store = save s w.store }) ≡ s
    unfolding save
    current-save s w h = ap (or_fresh cfg.address) (
        load-put s.address cfg.address s w.store
        ∙ ap (λ b. if b then some s else load cfg.address w.store)
            ((eq_iff s.address cfg.address).1 h))

    -- What a save returns is what it leaves.
    pub saved-eq :
        (s' : AccountState) (w : World) {s : AccountState} {w' : World}
        → s'.address ≡ cfg.address
        → ◌≡◌ {A = Result AccountState × World}
            (ok s', record w { store = save s' w.store })
            (ok s, w')
        → (current_state cfg w' ≡ s) × (s.address ≡ cfg.address)
    saved-eq s' w {s} {w'} h e =
        let same : s' ≡ s = ok_inj (ap (λ p. p.0) e) in
        (
          subst (λ (x : World). current_state cfg x ≡ s) (ap (λ p. p.1) e)
              (current-save s' w h ∙ same),
          subst (λ (x : AccountState). x.address ≡ cfg.address) same h,
        )

    keep_replay-saved :
        (fetched : FetchEventsResult Point) (r : Result AccountState) (w : World) {s : AccountState}
        {w' : World}
        → ((t : AccountState) → r ≡ ok t → t.address ≡ cfg.address)
        → keep_replay cfg fetched r w ≡ (ok s, w')
        → (current_state cfg w' ≡ s) × (s.address ≡ cfg.address)
    unfolding keep_replay
    keep_replay-saved fetched (ok t) w h e =
        saved-eq (reach_ledger fetched.latest_ledger (set_cursor fetched.cursor t)) w
          (set_cursor-address fetched.cursor t ∙ h t refl) e
    keep_replay-saved fetched (err x) w {s} h e =
        cc (ap (λ (p : Result AccountState × World). p.0) e)

    -- A replay returns the state that it has saved, under the account's address.
    pub replay_from-saved :
        (start : AccountState) (cursor : Option String) (w : World) {s : AccountState} {w' : World}
        → start.address ≡ cfg.address
        → replay_from cfg start cursor w ≡ (ok s, w')
        → (current_state cfg w' ≡ s) × (s.address ≡ cfg.address)
    unfolding replay_from
    replay_from-saved start cursor w h e =
        let (fetched, w1, _, e1) = bind-eq-ok (ask (λ n. cfg.fetch n cursor)) _ w e in
        keep_replay-saved fetched (apply_all cfg.keys start fetched.events) w1
          (λ t applied. apply_all-address cfg.keys start t fetched.events applied ∙ h) e1

    pub sync-saved :
        (w : World) {s : AccountState} {w' : World}
        → IsKeyed w
        → sync cfg w ≡ (ok s, w')
        → (current_state cfg w' ≡ s) × (s.address ≡ cfg.address)
    unfolding sync
    sync-saved w keyed e = replay_from-saved (current_state cfg w) _ w keyed e

    pub rebuild_from_events-saved :
        (w : World) {s : AccountState} {w' : World}
        → rebuild_from_events cfg w ≡ (ok s, w')
        → (current_state cfg w' ≡ s) × (s.address ≡ cfg.address)
    unfolding rebuild_from_events fresh_state
    rebuild_from_events-saved w e = replay_from-saved (fresh_state cfg.address) none w refl e
