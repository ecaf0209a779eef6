-- ===== src/Tests/FlowRuns.antt =====
-- The flows against a chain that stores 100 for the account, and a recipient with the same keys.
use lumengate.Prelude.{ℕ, ◌≡◌, refl, ap, true, none, some, List, [], ◌∷◌, ◌+ℤ◌, ◌-ℤ◌, pos}
use lumengate.Prelude.Result.{Result, ok}
use Prim.Native.String.{String}
use lumengate.Crypto.Poseidon.{derive_ephemeral_r_e, vk_from_sk, poseidon_with_domain}
use lumengate.Crypto.Grumpkin.{commit, scalar_mul, ecdh}
use lumengate.Crypto.Grumpkin.Toy.{Residue, toy, reduce}
use lumengate.Crypto.Keys.{derive_keys}
use lumengate.Witness.Transfer.{build_transfer_witness}
use lumengate.Witness.Withdraw.{build_withdraw_witness}
use lumengate.State.Types.{AccountState, load, put, save}
use lumengate.State.Apply.{apply_all}
use lumengate.State.Engine.{
  check_openings, accepted, sync, replay_from, keep_replay, verify_against_chain, attempts_loop,
  conclude_wait, wait_until_verified, set_spendable,
}
use lumengate.State.Engine.Reconcile.{reconcile_for_read, clear_optimistic_markers_if_verified}
use lumengate.Flow.{OnChain, FlowConfig, FlowWorld, engine_of, submit_tx}
use lumengate.Flow.Keys.{
  read_ct_registration_status, resolve_ct_keys, ct_state_engine, ensure_registered,
}
use lumengate.Flow.Settle.{
  positive_amount, recipient_account, read_spendable, cover_amount, consolidate, send_transfer,
  transfer_out, settle, execute_confidential_settlement,
}
use lumengate.Flow.Shield.{
  merge_before_unshield, send_withdraw, withdraw_out, unshield, unshield_confidential_asset,
}
use lumengate.Flow.Paid.{Settled, execute_confidential_settlement-Settled}
use lumengate.Flow.Withdrawn.{Unshielded, unshield_confidential_asset-Unshielded}
use lumengate.Product.Amount.{parse_stellar_amount, fraction}
use lumengate.Crypto.Field.Numeral.{trim_end}
use lumengate.Tests.Fixtures.{constant_hash, alice}

abbrev on_chain : OnChain Residue
on_chain = record {
  balances = record { spendable = commit (pos 100) (pos 0); receiving = toy.infinity };
  viewing_public_key = alice.pvk;
  auditor_id = 1;
}

abbrev flows : FlowConfig Residue
flows = record {
  smart_account = "A";
  token = [];
  auditor_id_num = 1;
  fetch = λ n cursor. ok (record { events = []; cursor = none; latest_ledger = 9 });
  confidential_balance = λ n account. ok (some on_chain);
  is_registered = λ n account. ok true;
  transaction_status = λ n hash. ok (some (some "SUCCESS"));
  auditor_key = λ n id. ok toy.h;
  prove = λ circuit inputs. ok (1 ∷ []);
  submit = λ n tx. ok "h";
  random = λ n i. pos 5;
}

abbrev funded : AccountState
funded = record {
  address = "A";
  spendable = record { v = pos 100; r = pos 0 };
  receiving = record { v = pos 0; r = pos 0 };
  registered = true;
  cursor = none;
  synced_ledger = 0;
  optimistic_tx_hashes = none;
}

abbrev before : FlowWorld Residue
before = record {
  engine = record { store = ("A", funded) ∷ []; calls = 0; slept = 0 };
  keys = some alice;
  registered_locally = true;
  submitted = [];
}

-- 0.000003, thirty of the smallest units.
abbrev thirty : List ℕ
thirty = b'0' ∷ b'.' ∷ b'0' ∷ b'0' ∷ b'0' ∷ b'0' ∷ b'0' ∷ b'3' ∷ []

thirty_parsed : positive_amount thirty ≡ ok (pos 30)
unfolding positive_amount parse_stellar_amount fraction trim_end
thirty_parsed = refl

abbrev paying : Result (String × List String) × FlowWorld Residue
paying = execute_confidential_settlement flows "B" thirty before

paid_hash : paying.0 ≡ ok ("h", "h" ∷ [])
unfolding execute_confidential_settlement settle positive_amount parse_stellar_amount fraction
    trim_end resolve_ct_keys read_ct_registration_status ct_state_engine ensure_registered
    recipient_account read_spendable cover_amount consolidate transfer_out send_transfer submit_tx
    engine_of reconcile_for_read sync replay_from keep_replay verify_against_chain check_openings
    clear_optimistic_markers_if_verified set_spendable build_transfer_witness derive_keys vk_from_sk
    derive_ephemeral_r_e poseidon_with_domain load save apply_all put commit scalar_mul ecdh toy
    reduce ◌-ℤ◌ ◌+ℤ◌
paid_hash = refl

execute_confidential_settlement-Settled_example : Settled flows "B" thirty "h" before paying.1
execute_confidential_settlement-Settled_example =
    execute_confidential_settlement-Settled flows "B" thirty before
      (ap (λ (r : Result (String × List String)). (r, paying.1)) paid_hash)

abbrev withdrawing : Result (String × List String) × FlowWorld Residue
withdrawing = unshield_confidential_asset flows thirty before

withdrawn_hash : withdrawing.0 ≡ ok ("h", "h" ∷ [])
unfolding unshield_confidential_asset unshield positive_amount parse_stellar_amount fraction
    trim_end resolve_ct_keys read_ct_registration_status ct_state_engine merge_before_unshield
    withdraw_out send_withdraw submit_tx engine_of wait_until_verified attempts_loop conclude_wait
    accepted sync replay_from keep_replay verify_against_chain check_openings set_spendable
    build_withdraw_witness derive_keys vk_from_sk poseidon_with_domain load save apply_all put
    commit scalar_mul ecdh toy reduce ◌-ℤ◌ ◌+ℤ◌
withdrawn_hash = refl

unshield_confidential_asset-Unshielded_example : Unshielded flows thirty "h" before withdrawing.1
unshield_confidential_asset-Unshielded_example =
    unshield_confidential_asset-Unshielded flows thirty before
      (ap (λ (r : Result (String × List String)). (r, withdrawing.1)) withdrawn_hash)
