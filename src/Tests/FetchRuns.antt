-- ===== src/Tests/FetchRuns.antt =====
-- A chain with one event, at ledger 3, over an RPC that scans to ledger 2 first, and then to its latest
-- ledger 100.
use lumengate.Prelude.{
  ℕ, zero, suc, ◌+◌, ◌-◌, ◌<◌, ◌≡◌, refl, ap, ◌∙◌, ◌⊎◌, inl, inr, false, Option, none, some, List,
  [], ◌∷◌, arith, ltb, leb, ◌==◌, if◌then◌else◌, leb→le, le→leb, ==_iff, Bool-cases,
}
use lumengate.Prelude.Result.{Result, ok, err, rpc_error, err, ok_inj}
use Prim.Native.String.{String}
use mathlib.Core.Path.{subst}
use lumengate.Chain.Events.{ConfidentialEvent, FetchEventsResult, merge}
use lumengate.Chain.EventSource.Ordered.{IsSorted, AreDistinct}
use lumengate.Chain.EventSource.{has}
use lumengate.Chain.Paging.{GetEventsResponse, RpcServer, parse_all, fetch_events, cursor_ledger}
use lumengate.Chain.Paging.Scanned.{
  Chain, scan, origin, Scans, IsScan, IsFetched, fetch_events-IsFetched,
}
use lumengate.Chain.Paging.CaughtUp.{IsLive, IsCaughtUp, fetch_events-IsCaughtUp}
use lumengate.Chain.Hybrid.{History, Leg, leg_of, hybrid_fetch_events}
use lumengate.Chain.Hybrid.Contiguous.{IsHistory, IsStretch, begins, hybrid_fetch_events-IsStretch}
use text.Mathlib.Text.{◌==◌ as str_eq}

abbrev the_event : ConfidentialEvent ℕ
the_event = merge (record { ledger = 3; tx_hash = "h"; cursor = "3-h-0-0" }) "A"

abbrev log : ℕ → List (ConfidentialEvent ℕ)
log p = if p == 3 then the_event ∷ [] else []

abbrev chain : Chain (ConfidentialEvent ℕ)
chain = record {
  log = log;
  start_of = λ ledger. ledger;
  position = λ c. if str_eq c "8589934592-0" then 2 else 100;
}

abbrev page : ℕ → ℕ → String → GetEventsResponse (ConfidentialEvent ℕ)
page p k c = record { events = scan log p k; cursor = some c; latest_ledger = 100 }

abbrev answer : Option ℕ → Result (GetEventsResponse (ConfidentialEvent ℕ))
answer none = err rpc_error
answer (some p) =
    if ltb p 2
    then ok (page p (2 - p) "8589934592-0")
    else if leb p 100
    then ok (page p (100 - p) "429496729600-0")
    else err rpc_error

abbrev server : RpcServer (ConfidentialEvent ℕ) ℕ
server = record {
  get_events = λ n request. answer (origin chain request);
  parse = λ ev. ok (some ev);
}

parses : (events : List (ConfidentialEvent ℕ)) → parse_all server events ≡ ok events
unfolding parse_all
parses [] = refl
parses (ev ∷ events) = rw (parses events) refl

scans : Scans server chain
scans n p request answered from h = elim (Bool-cases (ltb p 2)) [
  | inl low ↦
      let e : ok (page p (2 - p) "8589934592-0") ≡ ok answered = rw low at (rw from at h) in
      subst (λ x. IsScan chain p x) (ok_inj e) (2 - p, "8589934592-0", refl, refl, ground arith)
  | inr high ↦ elim (Bool-cases (leb p 100)) [
    | inl inside ↦
        let e : ok (page p (100 - p) "429496729600-0") ≡ ok answered =
          rw inside at (rw high at (rw from at h)) in
        subst (λ x. IsScan chain p x) (ok_inj e)
          (100 - p, "429496729600-0", refl, refl, ground arith)
    | inr beyond ↦
        let e : err rpc_error ≡ ok answered = rw beyond at (rw high at (rw from at h)) in cc
  ]
]

live : IsLive server chain 100
unfolding cursor_ledger
live n p request from low = elim (Bool-cases (ltb p 2)) [
  | inl first ↦ (
    page p (2 - p) "8589934592-0",
    scan log p (2 - p),
    "8589934592-0",
    2,
    2 - p,
    rw from (rw first refl),
    parses (scan log p (2 - p)),
    refl,
    refl,
    refl,
    ground arith,
    ground arith,
    inr (ground arith),
  )
  | inr later ↦ (
    page p (100 - p) "429496729600-0",
    scan log p (100 - p),
    "429496729600-0",
    100,
    100 - p,
    rw from (rw later (rw (le→leb p 100 low) refl)),
    parses (scan log p (100 - p)),
    refl,
    refl,
    refl,
    omega arith,
    omega arith,
    inl (omega arith),
  )
]

abbrev fetched : FetchEventsResult ℕ
fetched = record { events = the_event ∷ []; cursor = some "429496729600-0"; latest_ledger = 100 }

fetched_from_1 : fetch_events server 3 (some 1) none none ≡ ok (some fetched)
unfolding fetch_events cursor_ledger scan
fetched_from_1 = refl

fetch_events-IsFetched_example : IsFetched server chain 1 fetched
fetch_events-IsFetched_example =
    fetch_events-IsFetched server chain scans 3 (some 1) none none 1 fetched refl fetched_from_1

fetch_events-IsCaughtUp_example :
    (result : FetchEventsResult ℕ) × (fetch_events server 100 (some 1) none none ≡ ok (some result))
    × IsCaughtUp result
fetch_events-IsCaughtUp_example =
    fetch_events-IsCaughtUp server chain 100 live 100 (some 1) none none 1 refl (omega arith)
      (omega arith)

-- The indexer has the events up to the seam, ledger 70, and the RPC goes on from there.
abbrev older : ℕ → ℕ → Result (FetchEventsResult ℕ)
older start finish =
    if leb start (suc finish)
    then ok (record {
      events = scan log start (suc finish - start);
      cursor = none;
      latest_ledger = 100;
    })
    else err rpc_error

beyond : (k p : ℕ) → 3 < p → scan log p k ≡ []
unfolding scan
beyond zero p h = refl
beyond (suc k) p h =
    let off : (p == 3) ≡ false = ground arith in rw off (beyond k (suc p) (omega arith))

at_most_one : (k p : ℕ) → (scan log p k ≡ []) ⊎ (scan log p k ≡ the_event ∷ [])
unfolding scan
at_most_one zero p = inl refl
at_most_one (suc k) p = elim (Bool-cases (p == 3)) [
  | inl here ↦
      let e = (==_iff p 3).0 here in
      inr (rw here (ap (λ events. the_event ∷ events) (beyond k (suc p) (omega arith))))
  | inr away ↦ rw away (at_most_one k (suc p))
]

sorted : (p k : ℕ) → IsSorted (scan log p k)
sorted p k = elim (at_most_one k p) [ inl e ↦ rw e tt | inr e ↦ rw e (tt, tt) ]

distinct : (p k : ℕ) → AreDistinct (scan log p k)
distinct p k = elim (at_most_one k p) [ inl e ↦ rw e tt | inr e ↦ rw e (tt, tt) ]

some_inj : {f g : History ℕ} → some f ≡ some g → f ≡ g
some_inj e = cc

indexed :
    (fetch : History ℕ) (start finish : ℕ) (res : FetchEventsResult ℕ)
    → some older ≡ some fetch
    → fetch start finish ≡ ok res
    → (m : ℕ) × (res.events ≡ scan log start m) × (start + m ≡ suc finish)
indexed fetch start finish res e h =
    let same : older start finish ≡ ok res =
      ap (λ f. f start finish) (some_inj {f = older} {g = fetch} e) ∙ h in
    elim (Bool-cases (leb start (suc finish))) [
      | inl y ↦
          let there : ok (record {
            events = scan log start (suc finish - start);
            cursor = none;
            latest_ledger = 100;
          })
              ≡ ok res =
            rw y at same in
          let below = leb→le start (suc finish) y in
          subst (λ x. (m : ℕ) × (x.events ≡ scan log start m) × (start + m ≡ suc finish))
            (ok_inj there) (suc finish - start, refl, omega arith)
      | inr n ↦ let refused : err rpc_error ≡ ok res = rw n at same in cc
    ]

history : IsHistory server (some older) chain log
history = record {
  scans = scans;
  parses = λ q. parses (log q);
  sorted = sorted;
  distinct = distinct;
  indexed = indexed;
}

stretch : hybrid_fetch_events server (some older) 3 (ok (some 10)) 1 none ≡ ok (some fetched)
unfolding hybrid_fetch_events cursor_ledger scan has
stretch = refl

hybrid_fetch_events-IsStretch_example :
    (leg : Leg) × (leg_of (some older) (ok (some 10)) 1 none ≡ ok leg)
    × IsStretch chain log (begins (some older) chain leg) fetched
hybrid_fetch_events-IsStretch_example =
    hybrid_fetch_events-IsStretch server (some older) chain log history 3 (ok (some 10)) 1 none
      fetched stretch
