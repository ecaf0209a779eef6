-- ===== src/State/Types.antt =====
-- state/types.ts and the in-memory store of state/store.ts.
use lumengate.Prelude.{ℕ, Bool, false, Option, none, some, List, [], ◌∷◌, if◌then◌else◌, ℤ, pos}
use Prim.Native.String.{String}
use text.Mathlib.Text.{◌==◌ as str_eq}

pub record Opening : Type 0 where
  pub v : ℤ
  pub r : ℤ

abbrev pub zero_opening : Opening
zero_opening = record { v = pos 0; r = pos 0 }

pub record AccountState : Type 0 where
  pub address : String
  pub spendable : Opening
  pub receiving : Opening
  pub registered : Bool
  pub cursor : Option String
  pub synced_ledger : ℕ
  pub optimistic_tx_hashes : Option (List String)

unfoldable pub fresh_state : String → AccountState
fresh_state address = record {
  address = address;
  spendable = zero_opening;
  receiving = zero_opening;
  registered = false;
  cursor = none;
  synced_ledger = 0;
  optimistic_tx_hashes = none;
}

-- `MemoryStore`: the values of its map. They are copies, as `cloneState` makes them.
abbrev pub MemoryStore : Type 0
MemoryStore = List (String × AccountState)

unfoldable pub load : String → MemoryStore → Option AccountState
load address [] = none
load address ((key, s) ∷ store) = if str_eq key address then some s else load address store

-- `Map.set`.
unfoldable pub put : String → AccountState → MemoryStore → MemoryStore
put key s [] = (key, s) ∷ []
put key s ((key', s') ∷ store) =
    if str_eq key' key then (key, s) ∷ store else (key', s') ∷ put key s store

unfoldable pub save : AccountState → MemoryStore → MemoryStore
save s store = put s.address s store
