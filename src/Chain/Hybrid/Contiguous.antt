-- ===== src/Chain/Hybrid/Contiguous.antt =====
-- What `hybridFetchEvents` returns of a chain.
use lumengate.Prelude.{
  ℕ, zero, suc, ◌+◌, ◌-◌, ◌<◌, max, ◌≡◌, refl, sym, ap, ◌∙◌, ◌⊎◌, inl, inr, Bool, ◌&&◌, Option,
  none, some, List, [], ◌++◌, arith, ltb, Bool-cases,
}
use lumengate.Prelude.Result.{Error, Result, ok, err, err, >>=-eq-ok, ok_inj}
use Prim.Native.String.{String}
use mathlib.Core.Path.{subst, ap₂}
use lumengate.Chain.Events.{ConfidentialEvent, FetchEventsResult}
use lumengate.Chain.EventSource.{dedupe_by_id}
use lumengate.Chain.EventSource.Ordered.{IsSorted, AreDistinct, dedupe_by_id_of_IsSorted}
use lumengate.Chain.Paging.{RpcServer, held, parse_all, fetch_events}
use lumengate.Chain.Paging.Scanned.{
  Chain, scan, scan-add, origin-request_of, Scans, IsFetched, parse_all-append,
  fetch_events-IsFetched,
}
use lumengate.Chain.Hybrid.{
  History, Leg, backfill, resume, clamp, leg_of, choose, floor_of, is_there, next_ledger,
  old_events, merged, fetch_leg, hybrid_fetch_events,
}

-- A leg whose request can be sent: its cursor is not empty, and ledgers lie below its seam.
abbrev pub IsSendable : Leg → Type 0
IsSendable (backfill next seam) = 0 < seam
IsSendable (resume c) = held (some c) ≡ some c
IsSendable (clamp ledger) = Unit

choose-IsSendable :
    (indexed : Bool) (next oldest from_ledger : ℕ) (start : Option String)
    → IsSendable (choose indexed next oldest from_ledger (held start))
choose-IsSendable indexed next oldest from_ledger start =
    elim (Bool-cases (indexed && (ltb 0 oldest && ltb next oldest))) [
      | inl y ↦ rw y (omega arith)
      | inr n ↦ rw n (resume_or_clamp start)
    ]
  where
    resume_or_clamp :
        (start' : Option String)
        → IsSendable (elim (held start') [
          | none ↦ clamp (max from_ledger (floor_of oldest from_ledger))
          | some c ↦ resume c
        ])
    resume_or_clamp none = tt
    resume_or_clamp (some String.[]) = tt
    resume_or_clamp (some (String.◌∷◌ c s)) = refl

module _ {Entry Point : Type 0} where
  -- What the sources are of: each position parses to its events, which lie in the order of the ledgers
  -- and have distinct ids; the indexer has the events of all ledgers from the first to the last.
  pub record IsHistory (server : RpcServer Entry Point) (indexer : Option (History Point))
      (chain : Chain Entry) (events : ℕ → List (ConfidentialEvent Point)) : Type 0 where
    pub scans : Scans server chain
    pub parses : (q : ℕ) → parse_all server (chain.log q) ≡ ok (events q)
    pub sorted : (p k : ℕ) → IsSorted (scan events p k)
    pub distinct : (p k : ℕ) → AreDistinct (scan events p k)
    pub indexed :
        (fetch : History Point) (start finish : ℕ) (res : FetchEventsResult Point)
        → indexer ≡ some fetch
        → fetch start finish ≡ ok res
        → (m : ℕ) × (res.events ≡ scan events (chain.start_of start) m)
          × (chain.start_of start + m ≡ chain.start_of (suc finish))

  -- The position where a leg begins: that of its ledger or cursor, but the seam where the indexer does not
  -- answer.
  abbrev pub begins : Option (History Point) → Chain Entry → Leg → ℕ
  begins none chain (backfill next seam) = chain.start_of seam
  begins (some fetch) chain (backfill next seam) = elim (fetch next (seam - 1)) [
    | ok res ↦ chain.start_of next
    | err thrown ↦ chain.start_of seam
  ]
  begins indexer chain (resume c) = chain.position c
  begins indexer chain (clamp ledger) = chain.start_of ledger

  -- Exactly the events of the positions from one on, up to the one that the cursor marks, in order.
  abbrev pub IsStretch :
      Chain Entry → (ℕ → List (ConfidentialEvent Point)) → ℕ → FetchEventsResult Point → Type 0
  IsStretch chain events p result =
      (k : ℕ) × (c : String) × (result.events ≡ scan events p k)
      × (result.cursor ≡ some c)
      × (chain.position c ≡ p + k)

module _ {Entry Point : Type 0} (server : RpcServer Entry Point) (indexer : Option (History Point))
    (chain : Chain Entry) (events : ℕ → List (ConfidentialEvent Point))
    (H : IsHistory server indexer chain events) where
  parse_all-scan : (k p : ℕ) → parse_all server (scan chain.log p k) ≡ ok (scan events p k)
  unfolding scan parse_all
  parse_all-scan zero p = refl
  parse_all-scan (suc k) p =
      parse_all-append server (chain.log p) (scan chain.log (suc p) k) (events p)
        (scan events (suc p) k) (H.parses p) (parse_all-scan k (suc p))

  dedupe-scan : (p k : ℕ) → dedupe_by_id (scan events p k) ≡ scan events p k
  dedupe-scan p k = dedupe_by_id_of_IsSorted (scan events p k) (H.sorted p k) (H.distinct p k)

  -- The older events before those of the RPC make one stretch.
  merged-IsStretch :
      (p m q : ℕ) (old : List (ConfidentialEvent Point)) (recent : Option (FetchEventsResult Point))
      (result : FetchEventsResult Point)
      → old ≡ scan events p m
      → p + m ≡ q
      → ((r : FetchEventsResult Point) → recent ≡ some r → IsFetched server chain q r)
      → merged old recent ≡ some result
      → IsStretch chain events p result
  merged-IsStretch p m q old none result is_old at fetched h = cc
  merged-IsStretch p m q old (some r) result is_old at fetched h =
      let (k, c, has, there, marked) = fetched r refl in
      let found : scan events q k ≡ r.events = ok_inj (sym (parse_all-scan k q) ∙ has) in
      let e : merged old (some r) ≡ some result = h in
      let e' : record r { events = dedupe_by_id (old ++ r.events) } ≡ result = cc in
      let all : old ++ r.events ≡ scan events p (m + k) =
        ap₂ (λ x y. x ++ y) is_old (sym found)
        ∙ ap (λ x. scan events p m ++ scan events x k) (sym at)
        ∙ sym (scan-add events p m k) in
      subst (λ x. IsStretch chain events p x) e'
        (m + k, c, ap dedupe_by_id all ∙ dedupe-scan p (m + k), there, omega (arith, marked, at))

  answered :
      (r : Result (FetchEventsResult Point))
      → ((res : FetchEventsResult Point) × (r ≡ ok res)) ⊎ ((e : Error) × (r ≡ err e))
  answered (ok res) = inl (res, refl)
  answered (err e) = inr (e, refl)

  -- The older events reach from where the leg begins to the seam.
  old_events-begins :
      (ix : Option (History Point))
      → ((fetch : History Point) (start finish : ℕ) (res : FetchEventsResult Point)
          → ix ≡ some fetch
          → fetch start finish ≡ ok res
          → (m : ℕ) × (res.events ≡ scan events (chain.start_of start) m)
            × (chain.start_of start + m ≡ chain.start_of (suc finish)))
      → (next seam : ℕ) → 0 < seam
      → (m : ℕ) × (old_events ix next (seam - 1)
          ≡ scan events (begins ix chain (backfill next seam)) m)
        × (begins ix chain (backfill next seam) + m ≡ chain.start_of seam)
  unfolding scan
  old_events-begins none law next seam above = (0, refl, omega arith)
  old_events-begins (some fetch) law next seam above = elim (answered (fetch next (seam - 1))) [
    | inl (res, e) ↦
        let (m, has, at) = law fetch next (seam - 1) res refl e in
        let last : suc (seam - 1) ≡ seam = omega arith in
        (m, rw e has, rw e (at ∙ ap (λ x. chain.start_of x) last))
    | inr (thrown, e) ↦ (0, rw e refl, rw e (omega arith))
  ]

  fetch_leg-IsStretch :
      (fuel : ℕ) (leg : Leg) (result : FetchEventsResult Point)
      → IsSendable leg
      → fetch_leg server indexer fuel leg ≡ ok (some result)
      → IsStretch chain events (begins indexer chain leg) result
  unfolding fetch_leg scan
  fetch_leg-IsStretch fuel (backfill next seam) result sent h =
      let (recent, run, last) = >>=-eq-ok (fetch_events server fuel (some seam) none none) _ h in
      let (m, is_old, at) = old_events-begins indexer H.indexed next seam sent in
      merged-IsStretch (begins indexer chain (backfill next seam)) m (chain.start_of seam)
        (old_events indexer next (seam - 1)) recent result is_old at
        (λ r e.
          fetch_events-IsFetched server chain H.scans fuel (some seam) none none
            (chain.start_of seam) r refl (run ∙ ap ok e))
        (ok_inj last)
  fetch_leg-IsStretch fuel (resume c) result sent h =
      let (recent, run, last) = >>=-eq-ok (fetch_events server fuel none (some c) none) _ h in
      merged-IsStretch (chain.position c) 0 (chain.position c) [] recent result refl (omega arith)
        (λ r e.
          fetch_events-IsFetched server chain H.scans fuel none (some c) none (chain.position c) r
            (origin-request_of chain none 100 c sent) (run ∙ ap ok e))
        (ok_inj last)
  fetch_leg-IsStretch fuel (clamp ledger) result sent h =
      let (recent, run, last) = >>=-eq-ok (fetch_events server fuel (some ledger) none none) _ h in
      merged-IsStretch (chain.start_of ledger) 0 (chain.start_of ledger) [] recent result refl
        (omega arith)
        (λ r e.
          fetch_events-IsFetched server chain H.scans fuel (some ledger) none none
            (chain.start_of ledger) r refl (run ∙ ap ok e))
        (ok_inj last)

  leg_of-IsSendable :
      (health : Result (Option ℕ)) (from_ledger : ℕ) (start : Option String) (leg : Leg)
      → leg_of indexer health from_ledger start ≡ ok leg
      → IsSendable leg
  unfolding leg_of
  leg_of-IsSendable health from_ledger start leg h =
      let (next, first, last) = >>=-eq-ok (next_ledger from_ledger start) _ h in
      subst IsSendable (ok_inj last) (choose-IsSendable (is_there indexer) next _ from_ledger start)

  -- What hybridFetchEvents returns is a stretch of the chain without a gap, each event once and
  -- in order: the events of exactly the positions from where its branch begins, a ledger or the
  -- stored cursor, up to the one that the returned cursor marks. Where an indexer that does not
  -- answer is asked first, the stretch begins at the seam. This holds of an RPC whose pages
  -- have what they scanned, an indexer that answers with all events of the ledgers asked for,
  -- or with none, and a chain whose events lie in the order of their ledgers under distinct
  -- ids.
  pub hybrid_fetch_events-IsStretch :
      (fuel : ℕ) (health : Result (Option ℕ)) (from_ledger : ℕ) (start : Option String)
      (result : FetchEventsResult Point)
      → hybrid_fetch_events server indexer fuel health from_ledger start ≡ ok (some result)
      → (leg : Leg) × (leg_of indexer health from_ledger start ≡ ok leg)
        × IsStretch chain events (begins indexer chain leg) result
  unfolding hybrid_fetch_events
  hybrid_fetch_events-IsStretch fuel health from_ledger start result h =
      let (leg, chosen, run) = >>=-eq-ok (leg_of indexer health from_ledger start) _ h in
      let sent = leg_of-IsSendable health from_ledger start leg chosen in
      (leg, chosen, fetch_leg-IsStretch fuel leg result sent run)
