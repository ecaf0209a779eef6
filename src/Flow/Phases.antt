-- ===== src/Flow/Phases.antt =====
-- What the phases of `executeConfidentialSettlement` submit.
use lumengate.Prelude.{
  ℕ, ◌≡◌, refl, sym, ap, ◌∙◌, ◌⊎◌, inl, inr, Bool, true, false, not, ◌&&◌, some, List, arith,
  if◌then◌else◌, ◌+ℤ◌, ◌-ℤ◌, ◌≤ℤ◌, ◌<ℤ◌, ltb_ℤ, leb_ℤ, -ℤ_parts, ℤ, pos,
}
use lumengate.Prelude.Result.{Result, ok, err, err, ok_inj, guard-eq-ok}
use Prim.Native.String.{String}
use mathlib.Core.Path.{subst}
use lumengate.Crypto.Poseidon.{Poseidon}
use lumengate.Crypto.Grumpkin.{Curve}
use lumengate.State.Types.{AccountState}
use lumengate.State.Engine.{Verified, StateEngineConfig, wait_until_verified, verify_against_chain}
use lumengate.State.Engine.Reconcile.{reconcile_for_read}
use lumengate.State.Engine.Actions.{bind-eq-ok, if-eq, passed-eq, world-eq, value-eq}
use lumengate.Product.Amount.{parse_stellar_amount}
use lumengate.Flow.{CtTx, deposit_tx, merge_tx, FlowConfig, FlowWorld, run, submit_tx, waiting}
use lumengate.Flow.Settle.{
  Phase, only_positive, positive_amount, usable_receiving, has_receiving, read_spendable,
  submit_and_wait, cover_amount, consolidate,
}
use lumengate.Flow.Awaited.{IsSent, submit_tx-IsSent, IsFollowed, IsRead}
use lumengate.Flow.Quiet.{Quiet, still, bind-Quiet, if-Quiet, submitted-eq}

not_leb : (a : ℤ) → leb_ℤ a (pos 0) ≡ false → pos 0 <ℤ a
not_leb a h = ground arith

only_positive-range : (r : Result ℤ) (a : ℤ) → only_positive r ≡ ok a → (r ≡ ok a) × (pos 0 <ℤ a)
only_positive-range (err e) a h = cc
only_positive-range (ok b) a h =
    let (above, same) = guard-eq-ok (leb_ℤ b (pos 0)) _ _ h in
    (same, subst (λ x. pos 0 <ℤ x) (ok_inj same) (not_leb b above))

pub positive_amount-range :
    (amount : List ℕ) (amount_raw : ℤ)
    → positive_amount amount ≡ ok amount_raw
    → (parse_stellar_amount amount 7 ≡ ok amount_raw) × (pos 0 <ℤ amount_raw)
unfolding positive_amount
positive_amount-range amount amount_raw h = only_positive-range _ amount_raw h

positive_of : (total amount : ℤ) → not (ltb_ℤ total amount) ≡ false → pos 0 <ℤ amount -ℤ total
positive_of total amount h = ground (arith, -ℤ_parts amount total)

nothing_missing : (total amount : ℤ) → not (ltb_ℤ total amount) ≡ true → amount -ℤ total ≤ℤ pos 0
nothing_missing total amount h = ground (arith, -ℤ_parts amount total)

pub below_of : (v amount : ℤ) (b : Bool) → not (ltb_ℤ v amount && b) ≡ false → v <ℤ amount
below_of v amount b h = ground arith

not-eq-false : (b : Bool) → not b ≡ false → b ≡ true
not-eq-false true h = refl
not-eq-false false h = cc

module _ {Point : Type 0} ⦃P : Poseidon⦄ ⦃C : Curve Point⦄ (cfg : FlowConfig Point) where
  module _ (engine : StateEngineConfig Point) where
    pub read_spendable-Quiet : (hashes : List String) → Quiet (read_spendable cfg engine hashes)
    unfolding read_spendable
    read_spendable-Quiet hashes =
        bind-Quiet (run (reconcile_for_read engine)) (still (λ w. refl)) (λ r.
          if-Quiet (not r.1.spendable_ok) (still (λ w. refl))
            (if-Quiet r.0.registered (still (λ w. refl)) (still (λ w. refl))))

    IsRead-of :
        (state : AccountState) (verified : Verified) (w w1 : FlowWorld Point) (f : Phase)
        → run (reconcile_for_read engine) w ≡ (ok (state, verified), w1)
        → not verified.spendable_ok ≡ false
        → verified ≡ f.verified
        → record state { registered = true } ≡ f.state
        → IsRead cfg engine f w.submitted
    IsRead-of state verified w w1 f e usable same same_state = record {
      before = w;
      later_world = w1;
      found = state;
      then_submitted = refl;
      returned = e ∙ ap (λ v. (ok (state, v), w1)) same;
      usable =
          ap (λ (v : Verified). v.spendable_ok) (sym same)
          ∙ not-eq-false verified.spendable_ok usable;
      state_found = sym same_state;
    }

    pub read_spendable-IsRead :
        (hashes : List String) (w : FlowWorld Point) {f : Phase} {w' : FlowWorld Point}
        → read_spendable cfg engine hashes w ≡ (ok f, w')
        → IsRead cfg engine f w.submitted
    unfolding read_spendable
    read_spendable-IsRead hashes w {f} {w'} e =
        let ((state, verified), w1, e1, k1) = bind-eq-ok (run (reconcile_for_read engine)) _ w e in
        let (usable, k2) = passed-eq (not verified.spendable_ok) _ _ w1 k1 in
        elim (if-eq state.registered _ _ w1 k2) [
          | inl (y, k) ↦
              IsRead-of state verified w w1 f e1 usable (ap (λ x. x.verified) (ok_inj (value-eq k)))
                (ap (λ b. record state { registered = b }) (sym y)
                  ∙ ap (λ x. x.state) (ok_inj (value-eq k)))
          | inr (n, k) ↦
              let kept : Phase = record {
                state = record state { registered = true };
                verified = verified;
                hashes = hashes;
              } in
              let is_f : kept ≡ f = ok_inj (value-eq k) in
              IsRead-of state verified w w1 f e1 usable (ap (λ x. x.verified) is_f)
                (ap (λ x. x.state) is_f)
        ]

    -- The transaction, the wait behind it and the verification.
    pub submit_and_wait-IsFollowed :
        (tx : CtTx Point) (receiving spendable : Bool) (hashes : List String) (w : FlowWorld Point)
        {f : Phase} {w' : FlowWorld Point}
        → submit_and_wait cfg engine tx receiving spendable hashes w ≡ (ok f, w')
        → IsFollowed cfg engine tx receiving spendable f w.submitted w'.submitted
    unfolding submit_and_wait
    submit_and_wait-IsFollowed tx receiving spendable hashes w {f} {w'} e =
        let (hash, w1, e1, k1) = bind-eq-ok (submit_tx cfg tx) _ w e in
        let options = waiting (some hash) receiving spendable in
        let wait = run (wait_until_verified engine options) in
        let verify = run (verify_against_chain engine) in
        let (state, w2, e2, k2) = bind-eq-ok wait _ w1 k1 in
        let (verified, w3, e3, k3) = bind-eq-ok verify _ w2 k2 in
        let same : w'.submitted ≡ w1.submitted =
          ap (λ (x : FlowWorld Point). x.submitted) (sym (world-eq k3))
          ∙ submitted-eq verify w2 (still (λ x. refl)) e3
          ∙ submitted-eq wait w1 (still (λ x. refl)) e2 in
        record {
          hash = hash;
          sent =
              subst (λ l. IsSent cfg tx hash w.submitted l) (sym same)
                (submit_tx-IsSent cfg tx w e1);
          awaited = record {
            before = w1;
            later_world = w2;
            options = options;
            after_tx = refl;
            has_url = refl;
            requires_receiving = refl;
            requires_spendable = refl;
            synced = refl;
            then_submitted = sym same;
            returned =
                e2 ∙ ap (λ s. (ok s, w2)) (ap (λ (x : Phase). x.state) (ok_inj (value-eq k3)));
          };
          checked = (
            w3,
            e3 ∙ ap (λ v. (ok v, w3)) (ap (λ (x : Phase). x.verified) (ok_inj (value-eq k3))),
          );
        }

    -- What the spendable value and the verified receiving value leave open.
    abbrev pub missing : ℤ → Phase → ℤ
    missing amount_raw f =
        amount_raw
        -ℤ (f.state.spendable.v +ℤ (if f.verified.receiving_ok then f.state.receiving.v else pos 0))

    -- Nothing was missing and the phase is the one before, or the deposit of what was missing was
    -- submitted.
    abbrev pub IsCovered : ℤ → Phase → Phase → List (CtTx Point) → List (CtTx Point) → Type 0
    IsCovered amount_raw f f' old new =
        ((missing amount_raw f ≤ℤ pos 0) × (f' ≡ f) × (new ≡ old))
        ⊎ ((pos 0 <ℤ missing amount_raw f)
            × IsFollowed cfg engine
                (deposit_tx cfg.smart_account cfg.smart_account (missing amount_raw f)) true false
                f' old new)

    pub cover_amount-IsCovered :
        (amount_raw : ℤ) (f : Phase) (w : FlowWorld Point) {f' : Phase} {w' : FlowWorld Point}
        → cover_amount cfg engine amount_raw f w ≡ (ok f', w')
        → IsCovered amount_raw f f' w.submitted w'.submitted
    unfolding cover_amount
    cover_amount-IsCovered amount_raw f w e =
        let total = f.state.spendable.v +ℤ usable_receiving f in
        elim (if-eq (not (ltb_ℤ total amount_raw)) _ _ w e) [
          | inl (enough, k) ↦ inl (
            nothing_missing total amount_raw enough,
            sym (ok_inj (value-eq k)),
            ap (λ (x : FlowWorld Point). x.submitted) (sym (world-eq k)),
          )
          | inr (short, k) ↦
              let waits = not f.verified.receiving_ok && ltb_ℤ (pos 0) f.state.receiving.v in
              let (_, k') = passed-eq waits _ _ w k in
              inr (positive_of total amount_raw short, submit_and_wait-IsFollowed _ _ _ _ w k')
        ]

    -- The phase is the one before, or the spendable value was too small and a verified receiving
    -- balance was merged into it.
    abbrev pub IsMerged : ℤ → Phase → Phase → List (CtTx Point) → List (CtTx Point) → Type 0
    IsMerged amount_raw f f' old new =
        ((f' ≡ f) × (new ≡ old))
        ⊎ ((f.state.spendable.v <ℤ amount_raw)
            × (f.verified.receiving_ok ≡ true)
            × IsFollowed cfg engine (merge_tx cfg.smart_account) false true f' old new)

    pub consolidate-IsMerged :
        (amount_raw : ℤ) (f : Phase) (w : FlowWorld Point) {f' : Phase} {w' : FlowWorld Point}
        → consolidate cfg engine amount_raw f w ≡ (ok f', w')
        → IsMerged amount_raw f f' w.submitted w'.submitted
    unfolding consolidate
    consolidate-IsMerged amount_raw f w e =
        elim (if-eq (not (ltb_ℤ f.state.spendable.v amount_raw && has_receiving f.state)) _ _ w e) [
          | inl (_, k) ↦ inl (
            sym (ok_inj (value-eq k)),
            ap (λ (x : FlowWorld Point). x.submitted) (sym (world-eq k)),
          )
          | inr (needed, k) ↦
              let (verified, k') = passed-eq (not f.verified.receiving_ok) _ _ w k in
              inr (
                below_of f.state.spendable.v amount_raw (has_receiving f.state) needed,
                not-eq-false f.verified.receiving_ok verified,
                submit_and_wait-IsFollowed _ _ _ _ w k',
              )
        ]
