-- ===== src/Chain/Events.antt =====
-- The event types of chain/events.ts, and `buildConfidentialEvent`, which both decoders share.
use lumengate.Prelude.Result.{◌>>=◌}
use lumengate.Prelude.{ℕ, Option, none, some, List, if◌then◌else◌, ℤ}
use lumengate.Prelude.Result.{Result, ok}
use Prim.Native.String.{String}
use text.Mathlib.Text.{◌==◌ as str_eq}

pub record BaseEvent : Type 0 where
  pub ledger : ℕ
  pub tx_hash : String
  pub cursor : String

pub record WithdrawEvent (Point : Type 0) : Type 0 where
  pub from : String
  pub to : String
  pub amount : ℤ
  pub r_e : Point
  pub sigma : ℤ
  pub b_tilde : ℤ
  pub b_aud_s : ℤ

pub record TransferEvent (Point : Type 0) : Type 0 where
  pub from : String
  pub to : String
  pub r_e : Point
  pub v_tilde : ℤ
  pub sigma : ℤ
  pub b_tilde : ℤ
  pub v_aud_r : ℤ
  pub r_aud_r : ℤ
  pub v_aud_s : ℤ
  pub b_aud_s : ℤ

pub data ConfidentialEvent (Point : Type 0) : Type 0 where
  -- account, auditor id
  register : BaseEvent → String → ℕ → ConfidentialEvent Point
  -- from, to, amount
  deposit : BaseEvent → String → String → ℤ → ConfidentialEvent Point
  -- account
  merge : BaseEvent → String → ConfidentialEvent Point
  withdraw : BaseEvent → WithdrawEvent Point → ConfidentialEvent Point
  transfer : BaseEvent → TransferEvent Point → ConfidentialEvent Point

abbrev pub base : {Point : Type 0} → ConfidentialEvent Point → BaseEvent
base (register b _ _) = b
base (deposit b _ _ _) = b
base (merge b _) = b
base (withdraw b _) = b
base (transfer b _) = b

-- `EventDataAccessor`: each access throws on a missing or malformed field.
pub record EventDataAccessor (Point : Type 0) : Type 0 where
  pub field : String → Result ℤ
  pub point : String → Result Point
  pub i128 : String → Result ℤ
  pub u32 : String → Result ℕ

module _ {Point : Type 0} where
  -- The object literals evaluate their properties in order, and the first throw leaves the function.
  unfoldable pub build_confidential_event :
      String
      → BaseEvent
      → (ℕ → Result String)
      → EventDataAccessor Point
      → Result (Option (ConfidentialEvent Point))
  build_confidential_event name b addr d =
      if str_eq name "register"
      then (do
        account ← addr 1
        auditor_id ← d.u32 "auditor_id"
        ok (some (register b account auditor_id)))
      else if str_eq name "deposit"
      then (do
        from ← addr 1
        to ← addr 2
        amount ← d.i128 "amount"
        ok (some (deposit b from to amount)))
      else if str_eq name "merge"
      then (do account ← addr 1; ok (some (merge b account)))
      else if str_eq name "withdraw"
      then (do
        from ← addr 1
        to ← addr 2
        amount ← d.i128 "amount"
        r_e ← d.point "r_e"
        sigma ← d.field "sigma"
        b_tilde ← d.field "b_tilde"
        b_aud_s ← d.field "b_aud_s"
        ok (
            some (
              withdraw b (record {
                from = from;
                to = to;
                amount = amount;
                r_e = r_e;
                sigma = sigma;
                b_tilde = b_tilde;
                b_aud_s = b_aud_s;
              }))))
      else if str_eq name "transfer"
      then (do
        from ← addr 1
        to ← addr 2
        r_e ← d.point "r_e"
        v_tilde ← d.field "v_tilde"
        sigma ← d.field "sigma"
        b_tilde ← d.field "b_tilde"
        v_aud_r ← d.field "v_aud_r"
        r_aud_r ← d.field "r_aud_r"
        v_aud_s ← d.field "v_aud_s"
        b_aud_s ← d.field "b_aud_s"
        ok (
            some (
              transfer b (record {
                from = from;
                to = to;
                r_e = r_e;
                v_tilde = v_tilde;
                sigma = sigma;
                b_tilde = b_tilde;
                v_aud_r = v_aud_r;
                r_aud_r = r_aud_r;
                v_aud_s = v_aud_s;
                b_aud_s = b_aud_s;
              }))))
      else ok none

pub record FetchEventsResult (Point : Type 0) : Type 0 where
  pub events : List (ConfidentialEvent Point)
  pub cursor : Option String
  pub latest_ledger : ℕ
