-- ===== src/State/Ledger/Openings.antt =====
-- Sums of openings beside sums of commitments: merging, crediting, spending and depositing.
use lumengate.Prelude.{
  ◌+◌, ◌≤◌, ◌<◌, ◌≡◌, refl, sym, ap, ◌∙◌, ◌≢◌, arith, pos_part, neg_part, ◌+ℤ◌, +ℤ-nonneg, ℤ, pos,
  negsuc,
}
use mathlib.Core.Path.{ap₂}
use lumengate.Crypto.Field.Reduce.{fr_mod-IsCanonical}
use lumengate.Crypto.Field.{fr_modulus, fr_add, IsCanonical}
use lumengate.Crypto.Field.Reduce.{fr_add-pos}
use lumengate.Crypto.Grumpkin.{Curve, CurveLaws, commit, times}
use lumengate.State.Types.{Opening, AccountState}
use lumengate.State.Apply.{merged, credited}
use lumengate.State.Ledger.{ChainAccount, Opens}
use lumengate.Crypto.Grumpkin.Laws.{commit-add, commit_wrap, scalar_mul-times}

fr_add-IsCanonical : (a b : ℤ) → IsCanonical (fr_add a b)
unfolding fr_add
fr_add-IsCanonical a b = fr_mod-IsCanonical (a +ℤ b)

module _ {Point : Type 0} ⦃C : Curve Point⦄ (L : CurveLaws C) where
  -- Openings add up to an opening of the sum, while the blindings stay below r.
  pub commit-fr_add :
      (v r v' r' : ℤ)
      → neg_part v ≡ 0
      → IsCanonical r
      → neg_part v' ≡ 0
      → IsCanonical r'
      → pos_part r + pos_part r' < fr_modulus
      → commit (v +ℤ v') (fr_add r r') ≡ C.add (commit v r) (commit v' r')
  unfolding ◌+ℤ◌
  commit-fr_add (pos v) (pos r) (pos v') (pos r') hv hr hv' hr' fits =
      let sum : pos v +ℤ pos v' ≡ pos (v + v') = ground arith in
      let blind : fr_add (pos r) (pos r') ≡ pos (r + r') =
        rw (fr_add-pos r r' (omega arith) (omega arith)) (ground arith) in
      rw (sum, blind) (commit-add L v v' r r')
  commit-fr_add (negsuc v) r v' r' hv hr hv' hr' fits = absurd (omega arith)
  commit-fr_add v (negsuc r) v' r' hv hr hv' hr' fits = absurd (omega arith)
  commit-fr_add v r (negsuc v') r' hv hr hv' hr' fits = absurd (omega arith)
  commit-fr_add v r v' (negsuc r') hv hr hv' hr' fits = absurd (omega arith)

  -- They do not where the blindings reach r.
  pub commit-fr_add_wrap :
      (v r v' r' : ℤ)
      → neg_part v ≡ 0
      → IsCanonical r
      → neg_part v' ≡ 0
      → IsCanonical r'
      → fr_modulus ≤ pos_part r + pos_part r'
      → commit (v +ℤ v') (fr_add r r') ≢ C.add (commit v r) (commit v' r')
  unfolding ◌+ℤ◌
  commit-fr_add_wrap (pos v) (pos r) (pos v') (pos r') hv hr hv' hr' wraps =
      let sum : pos v +ℤ pos v' ≡ pos (v + v') = ground arith in
      rw sum (commit_wrap L v v' r r' (omega arith) (omega arith) wraps)
  commit-fr_add_wrap (negsuc v) r v' r' hv hr hv' hr' wraps = absurd (omega arith)
  commit-fr_add_wrap v (negsuc r) v' r' hv hr hv' hr' wraps = absurd (omega arith)
  commit-fr_add_wrap v r (negsuc v') r' hv hr hv' hr' wraps = absurd (omega arith)
  commit-fr_add_wrap v r v' (negsuc r') hv hr hv' hr' wraps = absurd (omega arith)

  -- A deposit carries no blinding.
  commit-deposit :
      (v r a : ℤ)
      → neg_part v ≡ 0
      → IsCanonical r
      → neg_part a ≡ 0
      → commit (v +ℤ a) r ≡ C.add (commit v r) (commit a (pos 0))
  unfolding ◌+ℤ◌
  commit-deposit (pos v) (pos r) (pos a) hv hr ha =
      let sum : pos v +ℤ pos a ≡ pos (v + a) = ground arith in
      let same : r + 0 ≡ r = omega arith in
      rw sum (ap (λ n. commit (pos (v + a)) (pos n)) (sym same) ∙ commit-add L v a r 0)
  commit-deposit (negsuc v) r a hv hr ha = absurd (omega arith)
  commit-deposit v (negsuc r) a hv hr ha = absurd (omega arith)
  commit-deposit v r (negsuc a) hv hr ha = absurd (omega arith)

  pub commit-zero : commit (pos 0) (pos 0) ≡ C.infinity
  unfolding commit times
  commit-zero =
      rw (commit, scalar_mul-times L 0 C.g, scalar_mul-times L 0 C.h) (L.infinity-add C.infinity)

  pub merged-Opens :
      {s : AccountState} {c : ChainAccount Point}
      → Opens s c
      → pos_part s.spendable.r + pos_part s.receiving.r < fr_modulus
      → Opens
          (merged s)
          (record { spendable = C.add c.spendable c.receiving; receiving = C.infinity })
  merged-Opens {s} o fits = record {
    spend_v = +ℤ-nonneg s.spendable.v s.receiving.v o.spend_v o.receive_v;
    spend_r = fr_add-IsCanonical s.spendable.r s.receiving.r;
    receive_v = refl;
    receive_r = omega arith;
    spend =
        commit-fr_add s.spendable.v s.spendable.r s.receiving.v s.receiving.r o.spend_v o.spend_r
          o.receive_v o.receive_r fits
        ∙ ap₂ C.add o.spend o.receive;
    receive = commit-zero;
  }

  pub credited-Opens :
      {s : AccountState} {c : ChainAccount Point} (tx : Opening) {point : Point}
      → Opens s c
      → neg_part tx.v ≡ 0
      → IsCanonical tx.r
      → commit tx.v tx.r ≡ point
      → pos_part s.receiving.r + pos_part tx.r < fr_modulus
      → Opens (credited s tx) (record c { receiving = C.add c.receiving point })
  credited-Opens {s} tx o hv hr e fits = record {
    spend_v = o.spend_v;
    spend_r = o.spend_r;
    receive_v = +ℤ-nonneg s.receiving.v tx.v o.receive_v hv;
    receive_r = fr_add-IsCanonical s.receiving.r tx.r;
    spend = o.spend;
    receive =
        commit-fr_add s.receiving.v s.receiving.r tx.v tx.r o.receive_v o.receive_r hv hr fits
        ∙ ap₂ C.add o.receive e;
  }

  pub spent-Opens :
      {s : AccountState} {c : ChainAccount Point} (next : Opening) {point : Point}
      → Opens s c
      → neg_part next.v ≡ 0
      → IsCanonical next.r
      → commit next.v next.r ≡ point
      → Opens (record s { spendable = next }) (record c { spendable = point })
  spent-Opens next o hv hr e = record {
    spend_v = hv;
    spend_r = hr;
    receive_v = o.receive_v;
    receive_r = o.receive_r;
    spend = e;
    receive = o.receive;
  }

  pub deposited-Opens :
      {s : AccountState} {c : ChainAccount Point} (amount : ℤ)
      → Opens s c
      → neg_part amount ≡ 0
      → Opens
          (record s { receiving = record { v = s.receiving.v +ℤ amount; r = s.receiving.r } })
          (record c { receiving = C.add c.receiving (commit amount (pos 0)) })
  deposited-Opens {s} amount o h = record {
    spend_v = o.spend_v;
    spend_r = o.spend_r;
    receive_v = +ℤ-nonneg s.receiving.v amount o.receive_v h;
    receive_r = o.receive_r;
    spend = o.spend;
    receive =
        commit-deposit s.receiving.v s.receiving.r amount o.receive_v o.receive_r h
        ∙ ap (λ p. C.add p (commit amount (pos 0))) o.receive;
  }
