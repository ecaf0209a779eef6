-- ===== src/State/Engine/Wait.antt =====
-- `waitUntilVerified`: what stands behind a state that it returns.
use lumengate.Prelude.{
  ℕ, zero, suc, ◌+◌, ◌≡◌, refl, sym, ap, ◌∙◌, inl, inr, true, Option, none, some, ◌==◌, Bool-cases,
}
use lumengate.Prelude.Result.{Result, ok, ok_inj}
use lumengate.Crypto.Poseidon.{Poseidon}
use mathlib.Core.Path.{subst}
use lumengate.Crypto.Grumpkin.{Curve}
use lumengate.State.Types.{AccountState, load}
use lumengate.State.Ledger.{ChainAccount}
use lumengate.State.Engine.{
  StateEngineConfig, WaitOptions, Verified, check_openings, accepted, refresh, current,
  current_state, verify_against_chain, attempts_loop, rebuild_from_events, rebuild_or_restore,
  wait_transaction, rebuild_allowed, conclude_wait, or_fresh, wait_until_verified,
}
use lumengate.State.Engine.Status.{ask}
use lumengate.State.Engine.Actions.{World, bind-eq-ok, if-eq, value-eq, world-eq}
use lumengate.State.Engine.Unsaved.{wait_transaction-Unsaved}
use lumengate.State.Engine.Saved.{IsKeyed, sync-saved, rebuild_from_events-saved}

module _ {Point : Type 0} ⦃P : Poseidon⦄ ⦃C : Curve Point⦄ (cfg : StateEngineConfig Point) where
  -- The last call of the chain answered with balances that the stored state opens, as the options
  -- ask for.
  pub record VerifiedNow (o : WaitOptions) (s : AccountState) (w : World) : Type 0 where
    pub call : ℕ
    pub onchain : Option (ChainAccount Point)
    pub last : w.calls ≡ call + 1
    pub answered : cfg.balance call ≡ ok onchain
    pub stored : current_state cfg w ≡ s
    pub passes : accepted cfg o (check_openings s onchain) ≡ true

  -- What a verification that returned has compared.
  record Checked (w : World) (v : Verified) (w' : World) : Type 0 where
    pub onchain : Option (ChainAccount Point)
    pub answered : cfg.balance w.calls ≡ ok onchain
    pub compared : v ≡ check_openings (current_state cfg w) onchain
    pub moved : w' ≡ record w { calls = w.calls + 1 }

  verify_against_chain-Checked :
      (w : World) {v : Verified} {w' : World}
      → verify_against_chain cfg w ≡ (ok v, w')
      → Checked w v w'
  unfolding verify_against_chain
  verify_against_chain-Checked w {v} {w'} e =
      let (onchain, w1, asked, e1) = bind-eq-ok (ask cfg.balance) _ w e in
      record {
        onchain = onchain;
        answered = ap (λ p. p.0) asked;
        compared = sym (ok_inj (ap (λ (p : Result Verified × World). p.0) e1));
        moved =
            sym (ap (λ (p : Result Verified × World). p.1) e1)
            ∙ sym (ap (λ (p : Result (Option (ChainAccount Point)) × World). p.1) asked);
      }

  -- The world behind a call keeps the stored state.
  refresh-saved :
      (o : WaitOptions) (w : World) {s : AccountState} {w' : World}
      → IsKeyed cfg w
      → refresh cfg o w ≡ (ok s, w')
      → (current_state cfg w' ≡ s) × (s.address ≡ cfg.address)
  unfolding current
  refresh-saved o w {s} {w'} keyed e = elim (Bool-cases o.skip_sync) [
    | inl y ↦
        let same : ◌≡◌ {A = Result AccountState × World} (ok (current_state cfg w), w) (ok s, w') =
          rw y at e in
        let is_s : current_state cfg w ≡ s = ok_inj (ap (λ p. p.0) same) in
        (
          subst (λ (x : World). current_state cfg x ≡ s) (ap (λ p. p.1) same) is_s,
          subst (λ (x : AccountState). x.address ≡ cfg.address) is_s keyed,
        )
    | inr n ↦ sync-saved cfg w keyed (rw n at e)
  ]

  -- A verification that passes, and nothing behind it.
  stopped-VerifiedNow :
      (o : WaitOptions) (s : AccountState) (w : World) (v : Verified) {s' : AccountState}
      {w1 w' : World}
      → Checked w v w1
      → accepted cfg o v ≡ true
      → (current_state cfg w ≡ s) × (s ≡ s') × (w1 ≡ w')
      → VerifiedNow o s' w'
  stopped-VerifiedNow o s w v {s'} {w1} {w'} c y (stored, same, still) =
      let moved : w' ≡ record w { calls = w.calls + 1 } = sym still ∙ c.moved in
      record {
        call = w.calls;
        onchain = c.onchain;
        last = ap (λ (x : World). x.calls) moved;
        answered = c.answered;
        stored = ap (λ (x : World). current_state cfg x) moved ∙ stored ∙ same;
        passes =
            subst (λ x. accepted cfg o (check_openings x c.onchain) ≡ true) (stored ∙ same)
              (subst (λ x. accepted cfg o x ≡ true) c.compared y);
      }

  attempts_loop-VerifiedNow :
      (o : WaitOptions) (interval left : ℕ) (s : AccountState) (w : World) {s' : AccountState}
      {w' : World}
      → current_state cfg w ≡ s
      → s.address ≡ cfg.address
      → attempts_loop cfg o interval left s w ≡ (ok (some s'), w')
      → VerifiedNow o s' w'
  unfolding attempts_loop
  attempts_loop-VerifiedNow o interval zero s w stored keyed e =
      cc (ap (λ (p : Result (Option AccountState) × World). p.0) e)
  attempts_loop-VerifiedNow o interval (suc left) s w {s'} {w'} stored keyed e =
      let (v, w1, ev, e1) = bind-eq-ok (verify_against_chain cfg) _ w e in
      let c = verify_against_chain-Checked w ev in
      let kept : current_state cfg w1 ≡ s =
        ap (λ (x : World). current_state cfg x) c.moved ∙ stored in
      elim (if-eq (accepted cfg o v) _ _ w1 e1) [
        | inl (y, e2) ↦
            stopped-VerifiedNow o s w v c y
              (stored, ap (or_fresh cfg.address) (ok_inj (value-eq e2)), world-eq e2)
        | inr (n, e2) ↦ elim (if-eq (left == 0) _ _ w1 e2) [
          | inl (last, e3) ↦ cc (value-eq e3)
          | inr (more, e3) ↦
              let w2 : World = record w1 { slept = w1.slept + interval } in
              let (t, w3, e6, e7) =
                bind-eq-ok (refresh cfg o) (attempts_loop cfg o interval left) w2 e3 in
              let (stored', keyed') =
                refresh-saved o w2 (ap (λ (x : AccountState). x.address) kept ∙ keyed) e6 in
              attempts_loop-VerifiedNow o interval left t w3 stored' keyed' e7
        ]
      ]

  rebuild_or_restore-VerifiedNow :
      (o : WaitOptions) (prior : AccountState) (w : World) {s : AccountState} {w' : World}
      → rebuild_or_restore cfg o prior w ≡ (ok s, w')
      → VerifiedNow o s w'
  unfolding rebuild_or_restore
  rebuild_or_restore-VerifiedNow o prior w {s} {w'} e =
      let (t, w1, e1, e2) = bind-eq-ok (rebuild_from_events cfg) _ w e in
      let (v, w2, e3, e4) = bind-eq-ok (verify_against_chain cfg) _ w1 e2 in
      let (stored, keyed) = rebuild_from_events-saved cfg w e1 in
      elim (if-eq (accepted cfg o v) _ _ w2 e4) [
        | inl (y, e5) ↦
            stopped-VerifiedNow o t w1 v (verify_against_chain-Checked w1 e3) y
              (stored, ok_inj (value-eq e5), world-eq e5)
        | inr (n, e5) ↦ cc (value-eq e5)
      ]

  conclude_wait-VerifiedNow :
      (o : WaitOptions) (prior : AccountState) (found : Option AccountState) (w : World)
      {s : AccountState} {w' : World}
      → ((t : AccountState) → found ≡ some t → VerifiedNow o t w)
      → conclude_wait cfg o prior found w ≡ (ok s, w')
      → VerifiedNow o s w'
  unfolding conclude_wait
  conclude_wait-VerifiedNow o prior (some t) w {s} {w'} h e =
      subst (λ x. VerifiedNow o x w') (ok_inj (value-eq e))
        (subst (λ x. VerifiedNow o t x) (world-eq e) (h t refl))
  conclude_wait-VerifiedNow o prior none w h e = elim (if-eq (rebuild_allowed cfg o) _ _ w e) [
    | inl (y, e1) ↦ rebuild_or_restore-VerifiedNow o prior w e1
    | inr (n, e1) ↦ cc (value-eq e1)
  ]

  wait_transaction-store :
      (o : WaitOptions) (w : World) {u : Unit {0}} {w' : World}
      → wait_transaction cfg o w ≡ (ok u, w')
      → w'.store ≡ w.store
  wait_transaction-store o w e =
      sym (ap (λ (p : Result (Unit {0}) × World). p.1.store) e)
      ∙ (wait_transaction-Unsaved cfg o).same w

  -- Over a store that keeps the account under its own address, a state that waitUntilVerified
  -- returns, from the loop or from the rebuild behind it, is the stored state, and its openings
  -- passed the requested test against the answer of the last call made, a read of the chain's
  -- balances.
  pub wait_until_verified-VerifiedNow :
      (o : WaitOptions) (w : World) {s : AccountState} {w' : World}
      → IsKeyed cfg w
      → wait_until_verified cfg o w ≡ (ok s, w')
      → VerifiedNow o s w'
  unfolding wait_until_verified current
  wait_until_verified-VerifiedNow o w {s} {w'} keyed e =
      let (u, w1, e1, e2) = bind-eq-ok (wait_transaction cfg o) _ w e in
      let (t, w2, e3, e4) = bind-eq-ok (refresh cfg o) _ w1 e2 in
      let (found, w3, e5, e6) = bind-eq-ok (attempts_loop cfg o _ _ t) _ w2 e4 in
      let same : current_state cfg w1 ≡ current_state cfg w =
        ap (λ x. or_fresh cfg.address (load cfg.address x)) (wait_transaction-store o w e1) in
      let (stored, keyed') =
        refresh-saved o w1 (ap (λ (x : AccountState). x.address) same ∙ keyed) e3 in
      conclude_wait-VerifiedNow o _ found w3
        (λ t' is_found. attempts_loop-VerifiedNow o _ _ t w2 stored keyed' (rw is_found at e5)) e6
