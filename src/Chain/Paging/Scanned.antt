-- ===== src/Chain/Paging/Scanned.antt =====
-- What `fetchEvents` returns of a chain. The entries lie at positions, each ledger starts at one, and a
-- cursor marks one. A page has the entries of the positions that it scanned, as the documentation of
-- `getEvents` says.
use lumengate.Prelude.{
  ℕ, zero, suc, ◌+◌, ◌≡◌, refl, sym, ap, ◌∙◌, inl, inr, Bool, true, false, Option, none, some, List,
  [], ◌∷◌, ◌++◌, arith, if◌then◌else◌, Bool-cases,
}
use lumengate.Prelude.Result.{Result, ok, >>=-eq-ok, ok_inj}
use mathlib.Core.List.{append_assoc}
use mathlib.Core.Path.{subst}
use Prim.Native.String.{String}
use lumengate.Chain.Events.{ConfidentialEvent, FetchEventsResult}
use lumengate.Chain.Paging.{
  GetEventsRequest, by_cursor, by_ledger, GetEventsResponse, RpcServer, held, request_of, kept,
  parse_all, stops, page_limit_of, fetch_pages, fetch_events,
}

-- What stands at each position, where the ledgers start, and where a cursor points.
pub record Chain (Entry : Type 0) : Type 0 where
  pub log : ℕ → List Entry
  pub start_of : ℕ → ℕ
  pub position : String → ℕ

-- The entries of so many positions, from one on.
unfoldable pub scan {ℓ} : {A : Type ℓ} → (ℕ → List A) → ℕ → ℕ → List A
scan log p zero = []
scan log p (suc n) = log p ++ scan log (suc p) n

pub scan-add {ℓ} :
    {A : Type ℓ} (log : ℕ → List A) (p m n : ℕ)
    → scan log p (m + n) ≡ scan log p m ++ scan log (p + m) n
unfolding scan
scan-add log p zero n =
    let e : p ≡ p + 0 = omega arith in
    let e' : 0 + n ≡ n = omega arith in ap (scan log p) e' ∙ ap (λ q. scan log q n) e
scan-add log p (suc m) n =
    let e : suc p + m ≡ p + suc m = omega arith in
    let e' : suc m + n ≡ suc (m + n) = omega arith in
    ap (scan log p) e'
    ∙ ap (λ rest. log p ++ rest)
        (scan-add log (suc p) m n ∙ ap (λ q. scan log (suc p) m ++ scan log q n) e)
    ∙ sym (append_assoc (log p) (scan log (suc p) m) (scan log (p + suc m) n))

module _ {Entry : Type 0} where
  abbrev pub origin : Chain Entry → GetEventsRequest → Option ℕ
  origin chain (by_cursor c limit) = some (chain.position c)
  origin chain (by_ledger (some ledger) limit) = some (chain.start_of ledger)
  origin chain (by_ledger none limit) = none

  pub origin-request_of :
      (chain : Chain Entry) (start : Option ℕ) (limit : ℕ) (c : String)
      → held (some c) ≡ some c
      → origin chain (request_of start (some c) limit) ≡ some (chain.position c)
  origin-request_of chain start limit String.[] h = cc
  origin-request_of chain start limit (String.◌∷◌ c s) h = refl

  -- A page scans positions from where the request says, and its cursor marks the end of them.
  abbrev pub IsScan : Chain Entry → ℕ → GetEventsResponse Entry → Type 0
  IsScan chain p page =
      (k : ℕ) × (c : String) × (page.events ≡ scan chain.log p k)
      × (page.cursor ≡ some c)
      × (chain.position c ≡ p + k)

module _ {Entry Point : Type 0} where
  abbrev pub Scans : RpcServer Entry Point → Chain Entry → Type 0
  Scans server chain =
      (n p : ℕ) (request : GetEventsRequest) (page : GetEventsResponse Entry)
      → origin chain request ≡ some p
      → server.get_events n request ≡ ok page
      → IsScan chain p page

  -- The events of the positions from one on, up to the one that the cursor marks.
  abbrev pub IsFetched : RpcServer Entry Point → Chain Entry → ℕ → FetchEventsResult Point → Type 0
  IsFetched server chain p result =
      (k : ℕ) × (c : String) × (parse_all server (scan chain.log p k) ≡ ok result.events)
      × (result.cursor ≡ some c)
      × (chain.position c ≡ p + k)

module _ {Entry Point : Type 0} (server : RpcServer Entry Point) where
  kept-append :
      (parsed : Option (ConfidentialEvent Point)) (xs ys : List (ConfidentialEvent Point))
      → kept parsed (xs ++ ys) ≡ kept parsed xs ++ ys
  kept-append none xs ys = refl
  kept-append (some ev) xs ys = refl

  pub parse_all-append :
      (xs ys : List Entry) (found later : List (ConfidentialEvent Point))
      → parse_all server xs ≡ ok found
      → parse_all server ys ≡ ok later
      → parse_all server (xs ++ ys) ≡ ok (found ++ later)
  unfolding parse_all
  parse_all-append [] ys found later h k = k ∙ ap (λ e. ok (e ++ later)) (ok_inj h)
  parse_all-append (x ∷ xs) ys found later h k =
      let (parsed, read, h1) = >>=-eq-ok (server.parse x) _ h in
      let (rest, more, last) = >>=-eq-ok (parse_all server xs) _ h1 in
      rw read (
        rw (parse_all-append xs ys rest later more k)
          (ap ok (kept-append parsed rest later ∙ ap (λ e. e ++ later) (ok_inj last))))

  abbrev pub result_of :
      List (ConfidentialEvent Point) → GetEventsResponse Entry → FetchEventsResult Point
  result_of out page = record {
    events = out;
    cursor = page.cursor;
    latest_ledger = page.latest_ledger;
  }

  -- The loop goes on only behind a cursor that is sent with the next request.
  stops-eq-false :
      (previous : Option String) (page : GetEventsResponse Entry) (c : String)
      → page.cursor ≡ some c
      → stops server previous page ≡ ok false
      → held (some c) ≡ some c
  unfolding stops
  stops-eq-false previous page String.[] e h = let absent : ok true ≡ ok false = rw e at h in cc
  stops-eq-false previous page (String.◌∷◌ c s) e h = refl

  -- What the events so far, those of one page and the rest of the loop give.
  turn-IsFetched :
      (chain : Chain Entry) (start : Option ℕ) (limit p k : ℕ) (cursor : Option String)
      (out parsed : List (ConfidentialEvent Point)) (page : GetEventsResponse Entry) (stop : Bool)
      (rest : Result (Option (FetchEventsResult Point))) (result : FetchEventsResult Point)
      → parse_all server (scan chain.log p k) ≡ ok out
      → IsScan chain (p + k) page
      → parse_all server page.events ≡ ok parsed
      → stops server cursor page ≡ ok stop
      → ((j q : ℕ)
          → parse_all server (scan chain.log p j) ≡ ok (out ++ parsed)
          → q ≡ p + j
          → origin chain (request_of start page.cursor limit) ≡ some q
          → rest ≡ ok (some result)
          → IsFetched server chain p result)
      → (if stop then ok (some (result_of (out ++ parsed) page)) else rest) ≡ ok (some result)
      → IsFetched server chain p result
  turn-IsFetched chain start limit p k cursor out parsed page stop rest result before
        (j, c, has, there, marked) read judged next h =
      let all : parse_all server (scan chain.log p (k + j)) ≡ ok (out ++ parsed) =
        ap (parse_all server) (scan-add chain.log p k j)
        ∙ parse_all-append (scan chain.log p k) (scan chain.log (p + k) j) out parsed before
            (ap (parse_all server) (sym has) ∙ read) in
      let at : chain.position c ≡ p + (k + j) = omega (arith, marked) in
      elim (Bool-cases stop) [
        | inl y ↦
            let e : ok (some (result_of (out ++ parsed) page)) ≡ ok (some result) = rw y at h in
            let e' : result_of (out ++ parsed) page ≡ result = cc in
            subst (λ r. IsFetched server chain p r) e' (k + j, c, all, there, at)
        | inr n ↦
            let e = rw n at h in
            let sent = stops-eq-false cursor page c there (judged ∙ ap ok n) in
            next (k + j) (chain.position c) all at
              (rw there (origin-request_of chain start limit c sent)) e
      ]

  -- From a page on: what was found before, and what the positions behind it hold.
  fetch_pages-IsFetched :
      (chain : Chain Entry)
      → Scans server chain
      → (fuel call : ℕ) (start : Option ℕ) (limit : ℕ) (cursor : Option String)
        (out : List (ConfidentialEvent Point)) (p k q : ℕ) (result : FetchEventsResult Point)
      → parse_all server (scan chain.log p k) ≡ ok out
      → q ≡ p + k
      → origin chain (request_of start cursor limit) ≡ some q
      → fetch_pages server fuel call start limit cursor out ≡ ok (some result)
      → IsFetched server chain p result
  unfolding fetch_pages
  fetch_pages-IsFetched chain scans zero call start limit cursor out p k q result before at from h =
      cc
  fetch_pages-IsFetched chain scans (suc fuel) call start limit cursor out p k q result before at
        from h =
      let (page, answer, h1) =
        >>=-eq-ok (server.get_events call (request_of start cursor limit)) _ h in
      let (parsed, read, h2) = >>=-eq-ok (parse_all server page.events) _ h1 in
      let (stop, judged, h3) = >>=-eq-ok (stops server cursor page) _ h2 in
      turn-IsFetched chain start limit p k cursor out parsed page stop
        (fetch_pages server fuel (suc call) start limit page.cursor (out ++ parsed)) result before
        (scans call (p + k) (request_of start cursor limit) page (from ∙ ap some at) answer) read
        judged
        (λ j r all at' from'.
          fetch_pages-IsFetched chain scans fuel (suc call) start limit page.cursor (out ++ parsed)
            p j r result all at' from')
        h3

  -- When fetchEvents returns, its events are the parsed entries of exactly the positions from
  -- where the request started up to the one that the returned cursor marks, in order, however
  -- the RPC cut them into pages; of an RPC whose pages have the entries of the positions that
  -- they scanned.
  pub fetch_events-IsFetched :
      (chain : Chain Entry)
      → Scans server chain
      → (fuel : ℕ) (start : Option ℕ) (cursor : Option String) (page_limit : Option ℕ) (p : ℕ)
        (result : FetchEventsResult Point)
      → origin chain (request_of start cursor (page_limit_of page_limit)) ≡ some p
      → fetch_events server fuel start cursor page_limit ≡ ok (some result)
      → IsFetched server chain p result
  unfolding fetch_events parse_all scan
  fetch_events-IsFetched chain scans fuel none none page_limit p result from h = cc
  fetch_events-IsFetched chain scans fuel (some l) cursor page_limit p result from h =
      fetch_pages-IsFetched chain scans fuel 0 (some l) (page_limit_of page_limit) cursor [] p 0 p
        result refl (omega arith) from h
  fetch_events-IsFetched chain scans fuel none (some c) page_limit p result from h =
      fetch_pages-IsFetched chain scans fuel 0 none (page_limit_of page_limit) (some c) [] p 0 p
        result refl (omega arith) from h
