-- ===== src/Chain/Paging.antt =====
-- chain/events.ts: `fetchEvents`, which follows the pages of the RPC's `getEvents` to the head of the
-- chain. The RPC is a parameter; what it answers depends on the number of calls made before. The loop
-- runs on fuel, and `none` says that the fuel did not do.
pub mod Scanned
pub mod CaughtUp
use lumengate.Prelude.{
  ℕ, zero, suc, ◌+◌, ◌-◌, ◌/◌, ◌^◌, Bool, true, false, ◌||◌, Option, none, some, List, [], ◌∷◌,
  ◌++◌, leb, ◌==◌, if◌then◌else◌, ℤ, pos, negsuc,
}
use lumengate.Prelude.Result.{Result, ok, err, ◌>>=◌, no_start}
use Prim.Native.String
use Prim.Native.String.{String}
use Prim.Native.Char.{code}
use text.Mathlib.Text.{◌==◌ as str_eq}
use lumengate.Chain.Events.{ConfidentialEvent, FetchEventsResult}
use lumengate.Passport.Numbers.{to_big_int}

-- The cursor is sent where it is there and not empty, else the first ledger.
pub data GetEventsRequest : Type 0 where
  by_cursor : String → ℕ → GetEventsRequest
  by_ledger : Option ℕ → ℕ → GetEventsRequest

pub record GetEventsResponse (Entry : Type 0) : Type 0 where
  pub events : List Entry
  pub cursor : Option String
  pub latest_ledger : ℕ

-- `parse` is `parseEvent` on an entry of the answer.
pub record RpcServer (Entry Point : Type 0) : Type 0 where
  pub get_events : ℕ → GetEventsRequest → Result (GetEventsResponse Entry)
  pub parse : Entry → Result (Option (ConfidentialEvent Point))

-- The code points of a text.
unfoldable pub codes : String → List ℕ
codes String.[] = []
codes (String.◌∷◌ c s) = code c ∷ codes s

-- `split("-")[0]`.
unfoldable pub before_dash : List ℕ → List ℕ
before_dash [] = []
before_dash (c ∷ s) = let rest = before_dash s in if c == b'-' then [] else c ∷ rest

-- `>> 32n`. No sign stands before the first dash.
abbrev shifted : ℤ → ℕ
shifted (pos toid) = toid / 2 ^ 32
shifted (negsuc n) = 0

unfoldable pub cursor_ledger : String → Result ℕ
unfolding codes before_dash to_big_int
cursor_ledger cursor = do toid ← to_big_int (before_dash (codes cursor)); ok (shifted toid)

-- A text that is there and not empty.
abbrev pub held : Option String → Option String
held none = none
held (some String.[]) = none
held (some (String.◌∷◌ c s)) = some (String.◌∷◌ c s)

abbrev pub request_of : Option ℕ → Option String → ℕ → GetEventsRequest
request_of start_ledger cursor limit = elim (held cursor) [
  | none ↦ by_ledger start_ledger limit
  | some c ↦ by_cursor c limit
]

abbrev pub is_cursor : String → Option String → Bool
is_cursor c none = false
is_cursor c (some previous) = str_eq c previous

-- `if (parsed) out.push(parsed)`.
abbrev pub kept {ℓ} : {A : Type ℓ} → Option A → List A → List A
kept none rest = rest
kept (some a) rest = a ∷ rest

abbrev pub page_limit_of : Option ℕ → ℕ
page_limit_of none = 100
page_limit_of (some limit) = limit

module _ {Entry Point : Type 0} (server : RpcServer Entry Point) where
  unfoldable pub parse_all : List Entry → Result (List (ConfidentialEvent Point))
  parse_all [] = ok []
  parse_all (entry ∷ entries) = do
    parsed ← server.parse entry
    rest ← parse_all entries
    ok (kept parsed rest)

  -- The three breaks: no cursor, a cursor at the latest ledger, a cursor that did not move.
  unfoldable pub stops : Option String → GetEventsResponse Entry → Result Bool
  unfolding cursor_ledger
  stops previous page = elim (held page.cursor) [
    | none ↦ ok true
    | some c ↦ do
      ledger ← cursor_ledger c
      ok (leb page.latest_ledger ledger || is_cursor c previous)
  ]

  -- `pageCursor` and `resumeCursor` are the same cursor all along.
  unfoldable pub fetch_pages :
      ℕ
      → ℕ
      → Option ℕ
      → ℕ
      → Option String
      → List (ConfidentialEvent Point)
      → Result (Option (FetchEventsResult Point))
  unfolding parse_all stops
  fetch_pages zero call start_ledger limit cursor out = ok none
  fetch_pages (suc fuel) call start_ledger limit cursor out = do
    page ← server.get_events call (request_of start_ledger cursor limit)
    parsed ← parse_all page.events
    stop ← stops cursor page
    let all = out ++ parsed
    let rest = fetch_pages fuel (suc call) start_ledger limit page.cursor all
    if stop
        then ok (
            some
              (record { events = all; cursor = page.cursor; latest_ledger = page.latest_ledger }))
        else rest

  unfoldable pub fetch_events :
      ℕ → Option ℕ → Option String → Option ℕ → Result (Option (FetchEventsResult Point))
  unfolding fetch_pages
  fetch_events fuel none none page_limit = err no_start
  fetch_events fuel (some ledger) cursor page_limit =
      fetch_pages fuel 0 (some ledger) (page_limit_of page_limit) cursor []
  fetch_events fuel none (some cursor) page_limit =
      fetch_pages fuel 0 none (page_limit_of page_limit) (some cursor) []
