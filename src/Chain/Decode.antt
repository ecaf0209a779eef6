-- ===== src/Chain/Decode.antt =====
-- chain/events.ts: `parseEvent`, the decoder of the RPC's events. The values of the Stellar SDK are a
-- parameter, with the accessors that the code calls; an accessor throws on a value of another kind.
use lumengate.Prelude.{
  ℕ, zero, suc, ◌/◌, ◌%◌, Bool, ◌||◌, Option, none, some, List, [], ◌∷◌, ltb, ◌==◌, if◌then◌else◌,
  ℤ, pos, negsuc,
}
use lumengate.Prelude.Result.{Result, ok, err, ◌>>=◌, bad_bigint, missing_field, err}
use Prim.Native.String.{String, ◌++◌ as text_append}
use Prim.Native.Char.{Char}
use text.Mathlib.Text.{◌==◌ as str_eq}
use lumengate.Crypto.Field.{from_bytes_be}
use lumengate.Crypto.Grumpkin.{Curve, point_from_bytes}
use lumengate.Product.Amount.{span_digits, read_10}
use lumengate.Passport.Numbers.{to_big_int}
use lumengate.Chain.Events.{
  ConfidentialEvent, BaseEvent, EventDataAccessor, build_confidential_event,
}
use lumengate.Chain.Paging.{codes, before_dash}

pub data Arm : Type 0 where
  scv_bytes scv_i128 scv_u32 other_arm : Arm

-- `sym().toString()`, `Address.fromScVal(v).toString()`, `bytes()`, `map() ?? []`, `u32()`, `scValToNative`
-- of an integer, and `switch().name`.
pub record ScVals (Val : Type 0) : Type 0 where
  pub sym : Val → Result String
  pub address : Val → Result String
  pub bytes : Val → Result (List ℕ)
  pub map_entries : Val → Result (List (Val × Val))
  pub u32 : Val → Result ℕ
  pub native : Val → Result ℤ
  pub arm : Val → Arm

pub record EventResponse (Val : Type 0) : Type 0 where
  pub id : String
  pub ledger : ℕ
  pub tx_hash : String
  pub topic : List Val
  pub value : Val

abbrev digit_char : ℕ → Char
digit_char d =
    if d == 0
    then "0"
    else if d == 1
    then "1"
    else if d == 2
    then "2"
    else if d == 3
    then "3"
    else if d == 4
    then "4"
    else if d == 5
    then "5"
    else if d == 6
    then "6"
    else if d == 7
    then "7"
    else if d == 8
    then "8"
    else "9"

-- A number in a template literal.
unfoldable pub decimal_text : ℕ → ℕ → String → String
decimal_text zero n acc = acc
decimal_text (suc fuel) n acc =
    let rest = decimal_text fuel (n / 10) (String.◌∷◌ (digit_char (n % 10)) acc) in
    if ltb n 10 then String.◌∷◌ (digit_char n) acc else rest

abbrev number_text : ℕ → String
number_text n = decimal_text (suc n) n ""

unfoldable pub natural_event_id : ℕ → String → ℕ → ℕ → String
unfolding decimal_text
natural_event_id ledger tx_hash op_index event_index = text_append (number_text ledger) (
    text_append "-" (
      text_append tx_hash (
        text_append "-"
          (text_append (number_text op_index) (text_append "-" (number_text event_index))))))

-- What stands behind the first dash.
unfoldable pub behind_dash : List ℕ → Option (List ℕ)
behind_dash [] = none
behind_dash (c ∷ s) = let rest = behind_dash s in if c == b'-' then some s else rest

-- `Number(eventStr ?? "0")`; an index that is no decimal number is refused here, where JavaScript goes
-- on with NaN or a fraction.
unfoldable pub event_number : Option (List ℕ) → Result ℕ
unfolding before_dash span_digits read_10
event_number none = ok 0
event_number (some s) =
    let split = span_digits (before_dash s) in
    elim split.1 [ [] ↦ ok (read_10 0 split.0) | _ ∷ _ ↦ err bad_bigint ]

-- `toid & 0xfff`.
abbrev low_bits : ℤ → ℕ
low_bits (pos toid) = toid % 4096
low_bits (negsuc n) = 0

unfoldable pub rpc_event_coords : String → Result (ℕ × ℕ)
unfolding codes before_dash behind_dash to_big_int event_number
rpc_event_coords id = do
  toid ← to_big_int (before_dash (codes id))
  event_index ← event_number (behind_dash (codes id))
  ok (low_bits toid, event_index)

abbrev pub is_known : String → Bool
is_known name =
    str_eq name "register"
    || str_eq name "deposit"
    || str_eq name "merge"
    || str_eq name "withdraw"
    || str_eq name "transfer"

-- `topics[i]`.
unfoldable pub nth {ℓ} : {A : Type ℓ} → List A → ℕ → Option A
nth [] i = none
nth (a ∷ s) zero = some a
nth (a ∷ s) (suc i) = nth s i

module _ {Val : Type 0} (S : ScVals Val) where
  unfoldable pub addr : List Val → ℕ → Result String
  unfolding nth
  addr topics i = elim (nth topics i) [ none ↦ err missing_field | some v ↦ S.address v ]

  -- The entries under their names; the map keeps the last of a name.
  unfoldable pub named : List (Val × Val) → Result (List (String × Val))
  named [] = ok []
  named ((key, v) ∷ entries) = do name ← S.sym key; rest ← named entries; ok ((name, v) ∷ rest)

  unfoldable pub last_of : String → List (String × Val) → Option Val
  last_of name [] = none
  last_of name ((key, v) ∷ entries) = elim (last_of name entries) [
    | none ↦ if str_eq key name then some v else none
    | some later ↦ some later
  ]

  unfoldable pub get : List (String × Val) → String → Result Val
  unfolding last_of
  get by_name name = elim (last_of name by_name) [ none ↦ err missing_field | some v ↦ ok v ]

  abbrev pub base_of : EventResponse Val → ℕ × ℕ → BaseEvent
  base_of ev coords = record {
    ledger = ev.ledger;
    tx_hash = ev.tx_hash;
    cursor = natural_event_id ev.ledger ev.tx_hash coords.0 coords.1;
  }

  module _ {Point : Type 0} ⦃C : Curve Point⦄ where
    unfoldable pub data_accessor : List (String × Val) → EventDataAccessor Point
    unfolding get
    data_accessor by_name = record {
      field = λ name. do
        v ← get by_name name
        b ← S.bytes v
        ok (from_bytes_be b);
      point = λ name. do
        v ← get by_name name
        b ← S.bytes v
        point_from_bytes b;
      i128 = λ name. get by_name name >>= S.native;
      u32 = λ name. get by_name name >>= S.u32;
    }

    unfoldable pub parse_known :
        EventResponse Val → String → Result (Option (ConfidentialEvent Point))
    unfolding rpc_event_coords natural_event_id named addr data_accessor build_confidential_event
    parse_known ev name = do
      coords ← rpc_event_coords ev.id
      entries ← S.map_entries ev.value
      by_name ← named entries
      build_confidential_event name (base_of ev coords) (addr ev.topic) (data_accessor by_name)

    unfoldable pub parse_event : EventResponse Val → Result (Option (ConfidentialEvent Point))
    unfolding parse_known
    parse_event ev = elim ev.topic [
      | [] ↦ ok none
      | first ∷ _ ↦ do name ← S.sym first; if is_known name then parse_known ev name else ok none
    ]
