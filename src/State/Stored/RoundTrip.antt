-- ===== src/State/Stored/RoundTrip.antt =====
-- States in a store of JSON values, saved and loaded.
use lumengate.Prelude.{
  ◌≡◌, refl, ap, ◌∙◌, some, [], ◌∷◌, arith, if◌then◌else◌, ◌≤ℤ◌, ℤ, pos, negsuc,
}
use lumengate.Prelude.Result.{ok}
use Prim.Native.String.{String}
use text.Mathlib.Text.{◌==◌ as str_eq}
use text.Mathlib.TextEquality.{eq_iff}
use lumengate.Passport.Numbers.{to_big_int}
use lumengate.Passport.Numbers.Hex.{to_big_int-to_string_16}
use lumengate.State.Types.{Opening, AccountState}
use lumengate.State.Stored.{
  RawState, bigint_replacer, raw_opening, raw_state, revive_opening, revive_state, revived,
  StoredStates, load_stored, put_stored, save_stored,
}

-- Neither part is negative.
abbrev pub IsNatural : Opening → Type 0
IsNatural o = (pos 0 ≤ℤ o.v) × (pos 0 ≤ℤ o.r)

to_big_int-bigint_replacer : (x : ℤ) → pos 0 ≤ℤ x → to_big_int (bigint_replacer x) ≡ ok x
unfolding bigint_replacer
to_big_int-bigint_replacer (pos n) h = to_big_int-to_string_16 n
to_big_int-bigint_replacer (negsuc n) h = absurd (omega arith)

revive_opening-raw_opening : (o : Opening) → IsNatural o → revive_opening (raw_opening o) ≡ ok o
unfolding revive_opening
revive_opening-raw_opening o (v, r) =
    rw (to_big_int-bigint_replacer o.v v) (rw (to_big_int-bigint_replacer o.r r) refl)

revive_state-raw_state :
    (s : AccountState)
    → IsNatural s.spendable
    → IsNatural s.receiving
    → revive_state (raw_state s) ≡ ok s
unfolding revive_state raw_state
revive_state-raw_state s spendable receiving =
    rw (revive_opening-raw_opening s.spendable spendable)
      (rw (revive_opening-raw_opening s.receiving receiving) refl)

-- What is behind a key after an entry was put.
load_stored-put_stored :
    (address key : String) (raw : RawState) (stored : StoredStates)
    → load_stored address (put_stored key raw stored)
      ≡ (if str_eq key address then revived raw else load_stored address stored)
unfolding load_stored put_stored
load_stored-put_stored address key raw [] = refl
load_stored-put_stored address key raw ((k, t) ∷ stored) = ground (
  arith,
  load_stored-put_stored address key raw stored,
  eq_iff k key,
  eq_iff k address,
  eq_iff key address,
)

revived-raw_state :
    (s : AccountState)
    → IsNatural s.spendable
    → IsNatural s.receiving
    → revived (raw_state s) ≡ ok (some s)
unfolding revived
revived-raw_state s spendable receiving = rw (revive_state-raw_state s spendable receiving) refl

-- After a state with openings that are not negative is saved in a store of JSON values, the state
-- is loaded for its address, and what was loaded before for every other.
pub load_stored-save_stored :
    (s : AccountState) (address : String) (stored : StoredStates)
    → IsNatural s.spendable
    → IsNatural s.receiving
    → load_stored address (save_stored s stored)
      ≡ (if str_eq s.address address then ok (some s) else load_stored address stored)
unfolding save_stored
load_stored-save_stored s address stored spendable receiving =
    load_stored-put_stored address s.address (raw_state s) stored
    ∙ ap (λ x. if str_eq s.address address then x else load_stored address stored)
        (revived-raw_state s spendable receiving)
