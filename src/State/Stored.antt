-- ===== src/State/Stored.antt =====
-- The JSON form of a state, `bigintReplacer` and `reviveState` of state/store.ts, and the stores that keep
-- it: state/browser-store.ts, which has an entry of the browser's storage for each address, and
-- state/json-store.ts, which has one object with a property for each. Both are a map from addresses to
-- JSON values here: `JSON.parse` gives back what `JSON.stringify` wrote, without what is undefined.
pub mod RoundTrip
use lumengate.Prelude.{
  ℕ, suc, ◌-◌, Bool, Option, none, some, List, [], ◌∷◌, if◌then◌else◌, ℤ, pos, negsuc,
}
use lumengate.Prelude.Result.{Result, ok, ◌>>=◌}
use Prim.Native.String.{String}
use text.Mathlib.Text.{◌==◌ as str_eq}
use lumengate.Crypto.Field.{to_string_16}
use lumengate.Passport.Numbers.{to_big_int}
use lumengate.State.Types.{Opening, AccountState}

pub record RawOpening : Type 0 where
  pub v : List ℕ
  pub r : List ℕ

-- `optimistic_tx_hashes` is there where it is an array.
pub record RawState : Type 0 where
  pub address : String
  pub spendable : RawOpening
  pub receiving : RawOpening
  pub registered : Bool
  pub cursor : Option String
  pub synced_ledger : ℕ
  pub optimistic_tx_hashes : Option (List String)

-- On a `bigint`; the other values stay.
unfoldable pub bigint_replacer : ℤ → List ℕ
bigint_replacer (pos n) = b'0' ∷ b'x' ∷ to_string_16 n
bigint_replacer (negsuc n) = b'0' ∷ b'x' ∷ b'-' ∷ to_string_16 (suc n)

abbrev pub raw_opening : Opening → RawOpening
raw_opening o = record { v = bigint_replacer o.v; r = bigint_replacer o.r }

-- `JSON.stringify(state, bigintReplacer)`.
unfoldable pub raw_state : AccountState → RawState
unfolding bigint_replacer
raw_state s = record {
  address = s.address;
  spendable = raw_opening s.spendable;
  receiving = raw_opening s.receiving;
  registered = s.registered;
  cursor = s.cursor;
  synced_ledger = s.synced_ledger;
  optimistic_tx_hashes = s.optimistic_tx_hashes;
}

unfoldable pub revive_opening : RawOpening → Result Opening
unfolding to_big_int
revive_opening o = do v ← to_big_int o.v; r ← to_big_int o.r; ok (record { v = v; r = r })

unfoldable pub revive_state : RawState → Result AccountState
unfolding revive_opening
revive_state raw = do
  spendable ← revive_opening raw.spendable
  receiving ← revive_opening raw.receiving
  ok (record {
    address = raw.address;
    spendable = spendable;
    receiving = receiving;
    registered = raw.registered;
    cursor = raw.cursor;
    synced_ledger = raw.synced_ledger;
    optimistic_tx_hashes = raw.optimistic_tx_hashes;
  })

-- `raw ? reviveState(raw) : null`, of an entry that is there.
unfoldable pub revived : RawState → Result (Option AccountState)
unfolding revive_state
revived raw = do s ← revive_state raw; ok (some s)

abbrev pub StoredStates : Type 0
StoredStates = List (String × RawState)

unfoldable pub load_stored : String → StoredStates → Result (Option AccountState)
unfolding revived
load_stored address [] = ok none
load_stored address ((key, raw) ∷ stored) =
    if str_eq key address then revived raw else load_stored address stored

unfoldable pub put_stored : String → RawState → StoredStates → StoredStates
put_stored key raw [] = (key, raw) ∷ []
put_stored key raw ((key', raw') ∷ stored) =
    if str_eq key' key then (key, raw) ∷ stored else (key', raw') ∷ put_stored key raw stored

unfoldable pub save_stored : AccountState → StoredStates → StoredStates
unfolding raw_state put_stored
save_stored s stored = put_stored s.address (raw_state s) stored
