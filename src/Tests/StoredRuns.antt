-- ===== src/Tests/StoredRuns.antt =====
-- Keys and states that are stored, and a transfer that the service writes for the client.
use lumengate.Prelude.{
  ℕ, ◌+◌, ◌*◌, ◌^◌, ◌≡◌, refl, true, none, some, List, [], ◌∷◌, ◌++◌, arith, if◌then◌else◌,
  replicate, pos,
}
use lumengate.Prelude.Result.{Result, ok, err, missing_field, err}
use Prim.Native.String.{String}
use lumengate.Crypto.Field.{from_bytes_be, read_be}
use lumengate.Crypto.Grumpkin.{all_zero}
use lumengate.Crypto.Grumpkin.Toy.{toy, reduce, rebuild}
use lumengate.Crypto.Keys.{serialize_keys, deserialize_keys}
use lumengate.Crypto.Keys.RoundTrip.{deserialize_keys-serialize_keys}
use lumengate.State.Types.{AccountState}
use lumengate.State.Stored.{load_stored, save_stored}
use lumengate.State.Stored.RoundTrip.{load_stored-save_stored}
use lumengate.Passport.Numbers.{to_big_int}
use lumengate.Chain.Paging.{codes, before_dash}
use lumengate.Chain.Decode.{
  Arm, scv_bytes, other_arm, ScVals, EventResponse, rpc_event_coords, behind_dash, event_number,
  named, last_of, get, parse_event,
}
use lumengate.Chain.IssuerRows.{IssuerCtEventRow, parse_rpc_event}
use lumengate.Chain.Issuer.{parse_issuer_ct_event}
use lumengate.Chain.Issuer.Texts.{TransferBytes, is_readable}
use lumengate.Chain.Issuer.Parity.{
  HasBytes, IsTransfer, transfer_of, parse_issuer_ct_event-parse_event,
}
use lumengate.Tests.Fixtures.{constant_hash, alice}

deserialize_keys-serialize_keys_example : deserialize_keys (serialize_keys alice) ≡ ok alice
deserialize_keys-serialize_keys_example =
    deserialize_keys-serialize_keys (pos 3) (pos 11) (omega arith) (omega arith)

abbrev funded : AccountState
funded = record {
  address = "A";
  spendable = record { v = pos 70; r = pos 4 };
  receiving = record { v = pos 0; r = pos 0 };
  registered = true;
  cursor = some "c";
  synced_ledger = 9;
  optimistic_tx_hashes = some ("h" ∷ []);
}

load_stored-save_stored_example : load_stored "A" (save_stored funded []) ≡ ok (some funded)
load_stored-save_stored_example = load_stored-save_stored funded "A" [] (omega arith) (omega arith)

-- Values that are texts or bytes; every map is that of a transfer.
data ToyVal : Type 0 where
  text_value : String → ToyVal
  bytes_value : List ℕ → ToyVal

abbrev key_bytes : List ℕ
key_bytes = replicate 31 0 ++ (16 ∷ (replicate 31 0 ++ (16 ∷ [])))

abbrev entry : String → List ℕ → ToyVal × ToyVal
entry name b = (text_value name, bytes_value b)

abbrev data_map : List (ToyVal × ToyVal)
data_map =
    entry "r_e" key_bytes
    ∷ entry "v_tilde" (16 ∷ [])
    ∷ entry "sigma" (17 ∷ [])
    ∷ entry "b_tilde" (18 ∷ [])
    ∷ entry "v_aud_r" (19 ∷ [])
    ∷ entry "r_aud_r" (20 ∷ [])
    ∷ entry "v_aud_s" (21 ∷ [])
    ∷ entry "b_aud_s" (22 ∷ [])
    ∷ []

abbrev text_of : ToyVal → Result String
text_of (text_value s) = ok s
text_of (bytes_value b) = err missing_field

abbrev bytes_of : ToyVal → Result (List ℕ)
bytes_of (text_value s) = err missing_field
bytes_of (bytes_value b) = ok b

abbrev arm_of : ToyVal → Arm
arm_of (text_value s) = other_arm
arm_of (bytes_value b) = scv_bytes

abbrev toy_values : ScVals ToyVal
toy_values = record {
  sym = text_of;
  address = text_of;
  bytes = bytes_of;
  map_entries = λ v. ok data_map;
  u32 = λ v. err missing_field;
  native = λ v. err missing_field;
  arm = arm_of;
}

abbrev emitted : EventResponse ToyVal
emitted = record {
  id = "12884905985-0000000001";
  ledger = 3;
  tx_hash = "h";
  topic = text_value "transfer" ∷ text_value "A" ∷ text_value "B" ∷ [];
  value = text_value "";
}

abbrev by_name : List (String × ToyVal)
by_name =
    ("r_e", bytes_value key_bytes)
    ∷ ("v_tilde", bytes_value (16 ∷ []))
    ∷ ("sigma", bytes_value (17 ∷ []))
    ∷ ("b_tilde", bytes_value (18 ∷ []))
    ∷ ("v_aud_r", bytes_value (19 ∷ []))
    ∷ ("r_aud_r", bytes_value (20 ∷ []))
    ∷ ("v_aud_s", bytes_value (21 ∷ []))
    ∷ ("b_aud_s", bytes_value (22 ∷ []))
    ∷ []

abbrev sent : TransferBytes
sent = record {
  r_e = key_bytes;
  v_tilde = 16 ∷ [];
  sigma = 17 ∷ [];
  b_tilde = 18 ∷ [];
  v_aud_r = 19 ∷ [];
  r_aud_r = 20 ∷ [];
  v_aud_s = 21 ∷ [];
  b_aud_s = 22 ∷ [];
}

holds :
    (name : String) (b : List ℕ)
    → get toy_values by_name name ≡ ok (bytes_value b)
    → HasBytes toy_values by_name name b
holds name b there = (bytes_value b, there, refl, refl)

emitted-IsTransfer : IsTransfer toy_values toy emitted
unfolding rpc_event_coords codes before_dash behind_dash to_big_int event_number named last_of get
    from_bytes_be read_be all_zero toy rebuild reduce
emitted-IsTransfer = record {
  first = text_value "transfer";
  second = text_value "A";
  third = text_value "B";
  from = "A";
  to = "B";
  coords = (1, 1);
  entries = data_map;
  by_name = by_name;
  b = sent;
  p = reduce (16 * 2 ^ 128 + 16);
  topics = refl;
  name = refl;
  from_address = refl;
  to_address = refl;
  from_held = refl;
  to_held = refl;
  at = refl;
  map_of = refl;
  names = refl;
  has_r_e = holds "r_e" key_bytes refl;
  has_v_tilde = holds "v_tilde" _ refl;
  has_sigma = holds "sigma" _ refl;
  has_b_tilde = holds "b_tilde" _ refl;
  has_v_aud_r = holds "v_aud_r" _ refl;
  has_r_aud_r = holds "r_aud_r" _ refl;
  has_v_aud_s = holds "v_aud_s" _ refl;
  has_b_aud_s = holds "b_aud_s" _ refl;
  long = refl;
  finite = refl;
  on_curve = refl;
}

parse_issuer_ct_event-parse_event_example :
    (row : IssuerCtEventRow) × (parse_rpc_event toy_values emitted ≡ ok (some row))
    × (parse_event toy_values emitted
        ≡ ok (some (transfer_of toy_values emitted emitted-IsTransfer)))
    × (parse_issuer_ct_event row ≡ (
        if is_readable emitted-IsTransfer.b
        then some (transfer_of toy_values emitted emitted-IsTransfer)
        else none))
parse_issuer_ct_event-parse_event_example =
    parse_issuer_ct_event-parse_event toy_values emitted emitted-IsTransfer
