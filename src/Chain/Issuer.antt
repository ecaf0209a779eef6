-- ===== src/Chain/Issuer.antt =====
-- chain/issuer-indexer.ts, the client of the issuer's event history; what the service answers is a
-- parameter.
pub mod Texts
pub mod Parity
use lumengate.Prelude.{
  ℕ, Bool, true, ◌&&◌, ◌||◌, Option, none, some, List, [], ◌∷◌, leb, ◌==◌, if◌then◌else◌, eqb_ℤ, ℤ,
  pos,
}
use lumengate.Prelude.Result.{Result, ok, err, ◌>>=◌, missing_field}
use Prim.Native.String
use Prim.Native.String.{String}
use text.Mathlib.Text.{◌==◌ as str_eq}
use lumengate.Crypto.Field.Pairs.{of_digits}
use lumengate.Crypto.Field.Hex.{without_prefix, hex_to_bytes}
use lumengate.Crypto.Grumpkin.{Curve, from_affine}
use lumengate.Passport.Numbers.{to_big_int}
use lumengate.Chain.Events.{
  ConfidentialEvent, BaseEvent, EventDataAccessor, build_confidential_event, base,
  FetchEventsResult,
}
use lumengate.Chain.Resolve.{EventRef}
use lumengate.Chain.Paging.{held, kept}
use lumengate.Chain.IssuerRows.{HexPoint, IssuerCtEventRow}

-- `parseHexField`, which drops the prefix that `hexToBytes` would drop too.
unfoldable pub parse_hex_field : Option (List ℕ) → Result ℤ
unfolding without_prefix hex_to_bytes
parse_hex_field none = err missing_field
parse_hex_field (some []) = err missing_field
parse_hex_field (some (c ∷ s)) = of_digits (without_prefix (c ∷ s))

-- A text that is there and not empty.
abbrev required : Option String → Result String
required text = elim (held text) [ none ↦ err missing_field | some s ↦ ok s ]

-- `(i) => (i === 1 ? addr("from") : i === 2 ? addr("to") : "")`.
abbrev pub two_parties : IssuerCtEventRow → ℕ → Result String
two_parties row i = if i == 1 then required row.from else if i == 2 then required row.to else ok ""

abbrev pub one_party : IssuerCtEventRow → ℕ → Result String
one_party row i = if i == 1 then required row.account else ok ""

-- The table of the field names.
abbrev field_of : IssuerCtEventRow → String → Option (List ℕ)
field_of row name =
    if str_eq name "sigma"
    then row.sigma
    else if str_eq name "v_tilde"
    then row.v_tilde
    else if str_eq name "b_tilde"
    then row.b_tilde
    else if str_eq name "v_aud_r"
    then row.v_aud_r
    else if str_eq name "r_aud_r"
    then row.r_aud_r
    else if str_eq name "v_aud_s"
    then row.v_aud_s
    else if str_eq name "b_aud_s"
    then row.b_aud_s
    else none

-- The amount as a number, and the auditor id, under their one name.
abbrev amount_of : Option (List ℕ) → Result ℤ
amount_of none = err missing_field
amount_of (some text) = to_big_int text

abbrev auditor_of : Option ℕ → Result ℕ
auditor_of none = err missing_field
auditor_of (some n) = ok n

abbrev pub row_base : IssuerCtEventRow → BaseEvent
row_base row = record { ledger = row.ledger; tx_hash = row.tx_hash; cursor = row.id }

abbrev in_range : ℕ → Option ℕ → ℕ → Bool
in_range start finish ledger =
    leb start ledger && (elim finish [ none ↦ true | some last ↦ leb ledger last ])

abbrev or_zero : Option ℕ → ℕ
or_zero none = 0
or_zero (some n) = n

-- The body of the service's answer; `err` stands for an answer that is not one.
pub record IssuerCtEventsResponse : Type 0 where
  pub events : List IssuerCtEventRow
  pub latest_ledger : ℕ

module _ {Point : Type 0} where
  -- The `catch`: what throws is no event.
  abbrev pub or_null : Result (Option (ConfidentialEvent Point)) → Option (ConfidentialEvent Point)
  or_null (ok found) = found
  or_null (err e) = none

module _ {Point : Type 0} ⦃C : Curve Point⦄ where
  abbrev pub affine_or_zero : ℤ × ℤ → Result Point
  affine_or_zero xy =
      if eqb_ℤ xy.0 (pos 0) && eqb_ℤ xy.1 (pos 0) then ok C.infinity else from_affine xy

  unfoldable pub parse_hex_point : Option HexPoint → Result Point
  unfolding parse_hex_field
  parse_hex_point none = err missing_field
  parse_hex_point (some p) = do
    x ← parse_hex_field (some p.x)
    y ← parse_hex_field (some p.y)
    affine_or_zero (x, y)

  unfoldable pub row_accessor : IssuerCtEventRow → EventDataAccessor Point
  unfolding parse_hex_field parse_hex_point to_big_int
  row_accessor row = record {
    field = λ name. parse_hex_field (field_of row name);
    point = λ name. parse_hex_point (if str_eq name "r_e" then row.r_e else none);
    i128 = λ name. if str_eq name "amount" then amount_of row.amount else err missing_field;
    u32 = λ name. if str_eq name "auditor_id" then auditor_of row.auditor_id else err missing_field;
  }

  -- The `switch`; a withdrawal is left out.
  unfoldable pub parse_issuer_ct_event : IssuerCtEventRow → Option (ConfidentialEvent Point)
  unfolding row_accessor build_confidential_event
  parse_issuer_ct_event row =
      if str_eq row.type "register" || str_eq row.type "merge"
      then or_null
          (build_confidential_event row.type (row_base row) (one_party row) (row_accessor row))
      else if str_eq row.type "deposit" || str_eq row.type "transfer"
      then or_null
          (build_confidential_event row.type (row_base row) (two_parties row) (row_accessor row))
      else none

  -- `fetchEvents`, over the rows that the service sends.
  unfoldable pub rows_between :
      ℕ → Option ℕ → List IssuerCtEventRow → List (ConfidentialEvent Point)
  unfolding parse_issuer_ct_event
  rows_between start finish [] = []
  rows_between start finish (row ∷ rows) =
      let rest = rows_between start finish rows in
      if in_range start finish row.ledger then kept (parse_issuer_ct_event row) rest else rest

  unfoldable pub fetch_issuer_events :
      (Option ℕ → Result IssuerCtEventsResponse)
      → Option ℕ
      → Option ℕ
      → Result (FetchEventsResult Point)
  unfolding rows_between
  fetch_issuer_events answer start finish = do
    body ← answer start
    ok (record {
      events = rows_between (or_zero start) finish body.events;
      cursor = none;
      latest_ledger = body.latest_ledger;
    })

  -- `resolveEventRef`: the first event with the id, where it is of the transaction.
  unfoldable pub find_event : EventRef → List IssuerCtEventRow → Option (ConfidentialEvent Point)
  unfolding parse_issuer_ct_event
  find_event ref [] = none
  find_event ref (row ∷ rows) = elim (parse_issuer_ct_event row) [
    | none ↦ find_event ref rows
    | some ev ↦
        if str_eq (base ev).cursor ref.id
        then (if str_eq (base ev).tx_hash ref.tx_hash then some ev else none)
        else find_event ref rows
  ]
