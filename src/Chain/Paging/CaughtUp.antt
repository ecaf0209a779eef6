-- ===== src/Chain/Paging/CaughtUp.antt =====
-- `fetchEvents` on its way to the head of the chain.
use lumengate.Prelude.{
  ℕ, zero, suc, ◌+◌, ◌≤◌, ◌<◌, ◌≡◌, refl, sym, ap, ◌∙◌, ◌⊎◌, inl, inr, false, ◌||◌, Option, none,
  some, List, [], ◌++◌, arith, leb, leb→le, le→leb, Bool-cases,
}
use lumengate.Prelude.Result.{ok}
use Prim.Native.String.{String}
use text.Mathlib.Text.{◌==◌ as str_eq}
use text.Mathlib.TextEquality.{eq_iff}
use lumengate.Chain.Events.{ConfidentialEvent, FetchEventsResult}
use lumengate.Chain.Paging.{
  GetEventsRequest, GetEventsResponse, RpcServer, cursor_ledger, held, request_of, is_cursor,
  parse_all, stops, page_limit_of, fetch_pages, fetch_events,
}
use lumengate.Chain.Paging.Scanned.{Chain, origin, origin-request_of, result_of}

module _ {Entry Point : Type 0} where
  -- The RPC answers each request with entries that parse, and with a cursor that is at the latest ledger
  -- or moved on, up to a last position.
  abbrev pub IsLive : RpcServer Entry Point → Chain Entry → ℕ → Type 0
  IsLive server chain finish =
      (n p : ℕ) (request : GetEventsRequest)
      → origin chain request ≡ some p
      → p ≤ finish
      → (page : GetEventsResponse Entry) × (parsed : List (ConfidentialEvent Point)) × (c : String)
        × (ledger : ℕ) × (k : ℕ) × (server.get_events n request ≡ ok page)
        × (parse_all server page.events ≡ ok parsed)
        × (page.cursor ≡ some c)
        × (held (some c) ≡ some c)
        × (cursor_ledger c ≡ ok ledger)
        × (chain.position c ≡ p + k)
        × (p + k ≤ finish)
        × ((page.latest_ledger ≤ ledger) ⊎ (0 < k))

module _ {Point : Type 0} where
  -- The cursor stands at the latest ledger that the RPC has, or beyond.
  abbrev pub IsCaughtUp : FetchEventsResult Point → Type 0
  IsCaughtUp result =
      (c : String) × (ledger : ℕ) × (result.cursor ≡ some c)
      × (cursor_ledger c ≡ ok ledger)
      × (result.latest_ledger ≤ ledger)

module _ {Entry Point : Type 0} (server : RpcServer Entry Point) where
  stops-at :
      (previous : Option String) (page : GetEventsResponse Entry) (c : String) (ledger : ℕ)
      → page.cursor ≡ some c
      → held (some c) ≡ some c
      → cursor_ledger c ≡ ok ledger
      → stops server previous page ≡ ok (leb page.latest_ledger ledger || is_cursor c previous)
  unfolding stops
  stops-at previous page String.[] ledger there sent at = cc
  stops-at previous page (String.◌∷◌ c s) ledger there sent at = rw there (rw at refl)

  -- A cursor that moved on is not the one that was sent.
  moved :
      (chain : Chain Entry) (start : Option ℕ) (limit p k : ℕ) (cursor : Option String) (c : String)
      → held (some c) ≡ some c
      → origin chain (request_of start cursor limit) ≡ some p
      → chain.position c ≡ p + k
      → 0 < k
      → is_cursor c cursor ≡ false
  moved chain start limit p k none c sent from marked h = refl
  moved chain start limit p k (some previous) c sent from marked h =
      elim (Bool-cases (str_eq c previous)) [
        | inl y ↦
            let same = (eq_iff c previous).0 y in
            let here = origin-request_of chain start limit c sent in
            let e : some (chain.position c) ≡ some p =
              sym here ∙ ap (λ x. origin chain (request_of start (some x) limit)) same ∙ from in
            let e' : chain.position c ≡ p = cc in absurd (omega (arith, marked, e'))
        | inr n ↦ n
      ]

  advanced :
      (page : GetEventsResponse Entry) (ledger k : ℕ)
      → leb page.latest_ledger ledger ≡ false
      → (page.latest_ledger ≤ ledger) ⊎ (0 < k)
      → 0 < k
  advanced page ledger k behind (inl reached) =
      absurd (ground (arith, le→leb page.latest_ledger ledger reached))
  advanced page ledger k behind (inr on) = on

  fetch_pages-IsCaughtUp :
      (chain : Chain Entry) (finish : ℕ)
      → IsLive server chain finish
      → (fuel call : ℕ) (start : Option ℕ) (limit : ℕ) (cursor : Option String)
        (out : List (ConfidentialEvent Point)) (p : ℕ)
      → origin chain (request_of start cursor limit) ≡ some p
      → p ≤ finish
      → finish < p + fuel
      → (result : FetchEventsResult Point) × (fetch_pages server fuel call start limit cursor out
          ≡ ok (some result))
        × IsCaughtUp result
  unfolding fetch_pages
  fetch_pages-IsCaughtUp chain finish live zero call start limit cursor out p from low enough =
      absurd (omega arith)
  fetch_pages-IsCaughtUp chain finish live (suc fuel) call start limit cursor out p from low
        enough =
      let (page, parsed, c, ledger, k, answer, read, there, sent, at, marked, high, on) =
        live call p (request_of start cursor limit) from low in
      let stop = stops-at cursor page c ledger there sent at in
      elim (Bool-cases (leb page.latest_ledger ledger)) [
        | inl y ↦ (
          result_of server (out ++ parsed) page,
          rw answer (rw read (rw stop (rw y refl))),
          (c, ledger, there, at, leb→le page.latest_ledger ledger y),
        )
        | inr n ↦
            let far =
              moved chain start limit p k cursor c sent from marked (advanced page ledger k n on) in
            let (result, run, caught) =
              fetch_pages-IsCaughtUp chain finish live fuel (suc call) start limit page.cursor
                (out ++ parsed) (chain.position c)
                (rw there (origin-request_of chain start limit c sent))
                (omega (arith, marked, high))
                (omega (arith, marked, enough, advanced page ledger k n on)) in
            (result, rw answer (rw read (rw stop (rw n (rw far run)))), caught)
      ]

  -- fetchEvents ends and returns a cursor that stands at the latest ledger that the RPC named
  -- with it, or beyond, in at most one call for each position from the first to the last: where
  -- every request from a position up to the last is answered with entries that parse and with a
  -- cursor that is at the latest ledger, or moved on.
  pub fetch_events-IsCaughtUp :
      (chain : Chain Entry) (finish : ℕ)
      → IsLive server chain finish
      → (fuel : ℕ) (start : Option ℕ) (cursor : Option String) (page_limit : Option ℕ) (p : ℕ)
      → origin chain (request_of start cursor (page_limit_of page_limit)) ≡ some p
      → p ≤ finish
      → finish < p + fuel
      → (result : FetchEventsResult Point) × (fetch_events server fuel start cursor page_limit
          ≡ ok (some result))
        × IsCaughtUp result
  unfolding fetch_events
  fetch_events-IsCaughtUp chain finish live fuel none none page_limit p from low enough = cc
  fetch_events-IsCaughtUp chain finish live fuel (some l) cursor page_limit p from low enough =
      fetch_pages-IsCaughtUp chain finish live fuel 0 (some l) (page_limit_of page_limit) cursor []
        p from low enough
  fetch_events-IsCaughtUp chain finish live fuel none (some c) page_limit p from low enough =
      fetch_pages-IsCaughtUp chain finish live fuel 0 none (page_limit_of page_limit) (some c) [] p
        from low enough
