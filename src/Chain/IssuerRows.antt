-- ===== src/Chain/IssuerRows.antt =====
-- The rows of the issuer's event history, and `parseRpcEvent` of
-- issuer-service/lib/confidentialIndexer.js, which writes them.
use lumengate.Prelude.{
  ℕ, suc, not, ◌||◌, Option, none, some, List, [], ◌∷◌, ◌==◌, if◌then◌else◌, length, take, drop,
  pos_part, ℤ, pos, negsuc,
}
use lumengate.Prelude.Result.{Result, ok, err, ◌>>=◌, bad_point_length, missing_field, err}
use Prim.Native.String.{String}
use text.Mathlib.Text.{◌==◌ as str_eq}
use lumengate.Crypto.Field.{from_bytes_be, to_string_16}
use lumengate.Crypto.Grumpkin.{all_zero}
use lumengate.Product.Amount.{to_string}
use lumengate.Chain.Decode.{
  Arm, scv_bytes, scv_i128, scv_u32, other_arm, ScVals, EventResponse, natural_event_id,
  rpc_event_coords, is_known, addr, named, get,
}

pub record HexPoint : Type 0 where
  pub x : List ℕ
  pub y : List ℕ

pub record IssuerCtEventRow : Type 0 where
  pub id : String
  pub ledger : ℕ
  pub tx_hash : String
  pub type : String
  pub account : Option String
  pub from : Option String
  pub to : Option String
  pub amount : Option (List ℕ)
  pub auditor_id : Option ℕ
  pub sigma : Option (List ℕ)
  pub r_e : Option HexPoint
  pub v_tilde : Option (List ℕ)
  pub b_tilde : Option (List ℕ)
  pub v_aud_r : Option (List ℕ)
  pub r_aud_r : Option (List ℕ)
  pub v_aud_s : Option (List ℕ)
  pub b_aud_s : Option (List ℕ)

-- `{ ...base }`, with the other properties absent.
abbrev pub bare_row : String → ℕ → String → String → IssuerCtEventRow
bare_row id ledger tx_hash name = record {
  id = id;
  ledger = ledger;
  tx_hash = tx_hash;
  type = name;
  account = none;
  from = none;
  to = none;
  amount = none;
  auditor_id = none;
  sigma = none;
  r_e = none;
  v_tilde = none;
  b_tilde = none;
  v_aud_r = none;
  r_aud_r = none;
  v_aud_s = none;
  b_aud_s = none;
}

-- `toString()` and `toString(16)` of a `bigint`.
abbrev pub big_text : ℤ → List ℕ
big_text (pos n) = to_string n
big_text (negsuc n) = b'-' ∷ to_string (suc n)

abbrev pub big_hex : ℤ → List ℕ
big_hex (pos n) = b'0' ∷ b'x' ∷ to_string_16 n
big_hex (negsuc n) = b'0' ∷ b'x' ∷ b'-' ∷ to_string_16 (suc n)

abbrev pub hex_point : List ℕ → HexPoint
hex_point b =
    if all_zero b
    then record { x = b'0' ∷ b'x' ∷ b'0' ∷ []; y = b'0' ∷ b'x' ∷ b'0' ∷ [] }
    else record { x = big_hex (from_bytes_be (take 32 b)); y = big_hex (from_bytes_be (drop 32 b)) }

module _ {Val : Type 0} (S : ScVals Val) where
  abbrev by_arm : Val → Arm → Result ℤ
  by_arm v scv_bytes = do b ← S.bytes v; ok (from_bytes_be b)
  by_arm v scv_i128 = S.native v
  by_arm v scv_u32 = do n ← S.u32 v; ok (pos n)
  by_arm v other_arm = err missing_field

  -- The map of the data is built again for each field that is read.
  unfoldable pub entry_of : Val → String → Result Val
  unfolding named get
  entry_of value name = do
    entries ← S.map_entries value
    by_name ← named S entries
    get S by_name name

  unfoldable pub data_field : Val → String → Result ℤ
  unfolding entry_of
  data_field value name = do v ← entry_of value name; by_arm v (S.arm v)

  unfoldable pub field_hex : Val → String → Result (List ℕ)
  unfolding data_field
  field_hex value name = do n ← data_field value name; ok (big_hex n)

  unfoldable pub point_field : Val → String → Result HexPoint
  unfolding entry_of
  point_field value name = do
    v ← entry_of value name
    b ← S.bytes v
    if not (length b == 64) then err bad_point_length else ok (hex_point b)

  -- The literal of each event, whose properties are computed in order. An auditor id is a u32, and so not
  -- negative.
  unfoldable pub row_of_known :
      EventResponse Val → IssuerCtEventRow → Result (Option IssuerCtEventRow)
  unfolding addr data_field field_hex point_field
  row_of_known ev row =
      if str_eq row.type "register"
      then (do
        account ← addr S ev.topic 1
        auditor_id ← data_field ev.value "auditor_id"
        ok (some (record row { account = some account; auditor_id = some (pos_part auditor_id) })))
      else if str_eq row.type "deposit" || str_eq row.type "withdraw"
      then (do
        from ← addr S ev.topic 1
        to ← addr S ev.topic 2
        amount ← data_field ev.value "amount"
        ok (some (record row { from = some from; to = some to; amount = some (big_text amount) })))
      else if str_eq row.type "merge"
      then (do account ← addr S ev.topic 1; ok (some (record row { account = some account })))
      else (do
        from ← addr S ev.topic 1
        to ← addr S ev.topic 2
        r_e ← point_field ev.value "r_e"
        sigma ← field_hex ev.value "sigma"
        v_tilde ← field_hex ev.value "v_tilde"
        b_tilde ← field_hex ev.value "b_tilde"
        v_aud_r ← field_hex ev.value "v_aud_r"
        r_aud_r ← field_hex ev.value "r_aud_r"
        v_aud_s ← field_hex ev.value "v_aud_s"
        b_aud_s ← field_hex ev.value "b_aud_s"
        ok (
            some (record row {
              from = some from;
              to = some to;
              r_e = some r_e;
              sigma = some sigma;
              v_tilde = some v_tilde;
              b_tilde = some b_tilde;
              v_aud_r = some v_aud_r;
              r_aud_r = some r_aud_r;
              v_aud_s = some v_aud_s;
              b_aud_s = some b_aud_s;
            })))

  unfoldable pub parse_rpc_event : EventResponse Val → Result (Option IssuerCtEventRow)
  unfolding rpc_event_coords natural_event_id row_of_known
  parse_rpc_event ev = elim ev.topic [
    | [] ↦ ok none
    | first ∷ _ ↦ do
      name ← S.sym first
      if is_known name
          then (do
            coords ← rpc_event_coords ev.id
            row_of_known ev (
                bare_row (natural_event_id ev.ledger ev.tx_hash coords.0 coords.1) ev.ledger
                  ev.tx_hash name))
          else ok none
  ]
