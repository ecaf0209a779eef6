-- ===== src/Tests/DisclosureRuns.antt =====
-- The disclosure protocol at concrete parameters.
use lumengate.Prelude.{
  ℕ, ◌<◌, ◌≡◌, refl, true, none, some, [], ◌∷◌, arith, replicate, All, ◌+ℤ◌, ◌-ℤ◌, pos,
}
use lumengate.Prelude.Result.{ok, ok_inj}
use mathlib.Core.Path.{subst}
use lumengate.Crypto.Field.{fr_mod, fr_add, to_hex_32, digits_16, bytes_to_hex}
use lumengate.Crypto.Field.Hex.{digit_value, without_prefix}
use lumengate.Crypto.Field.Numeral.{from_hex}
use lumengate.Crypto.Poseidon.{
  encrypt_disclosure, encrypt_amount, decrypt_with_domain, poseidon_with_domain, sponge, absorb,
  vk_from_sk, derive_ephemeral_r_e,
}
use lumengate.Crypto.Grumpkin.{scalar_mul, ecdh, point_coords}
use lumengate.Crypto.Grumpkin.Toy.{Residue, toy, toy_laws, reduce}
use lumengate.Crypto.Keys.{KeyPair, derive_keys, address_to_field}
use lumengate.Chain.Events.{BaseEvent, TransferEvent, transfer}
use lumengate.Chain.Resolve.{
  Source, IsNamedBy, hybrid_resolve_event_ref, hybrid_resolve_event_ref-IsNamedBy,
  resolve_event_ref, matches, event_ref,
}
use lumengate.Witness.Transfer.{
  TransferParams, TransferWitness, transfer_witness, build_transfer_witness,
}
use lumengate.Witness.Disclose.{build_disclose_recipient_witness, build_disclose_sender_witness}
use lumengate.Disclosure.{
  DisclosureBundle, CircuitProver, disclose_recipient_circuit_id, disclose_sender_circuit_id,
  point_to_json, point_from_json, new_disclosure_request, recipient_keys_from_secret,
}
use lumengate.Disclosure.Prove.{bundle, prove_recipient_disclosure, prove_sender_disclosure}
use lumengate.Disclosure.Verify.{recipient, sender, Client, verify_disclosure}
use lumengate.Disclosure.Accepted.{ProverLaws}
use lumengate.Disclosure.Parties.{
  Shown, verify_disclosure-prove_recipient_disclosure, verify_disclosure-prove_sender_disclosure,
}
use lumengate.Disclosure.Sound.{Established, verify_disclosure-Established}
use lumengate.Tests.Fixtures.{constant_hash, constant_hash_laws}

-- The keys under the token's address, whose digest is 7.
abbrev bob : KeyPair Residue
bob = derive_keys (pos 3) (pos 7)

abbrev payment : TransferParams Residue
payment = record {
  keys = bob;
  v = pos 100;
  r = pos 0;
  amount = pos 30;
  pvk_b = bob.pvk;
  k_aud_r = toy.h;
  k_aud_s = toy.h;
  sigma = none;
  r_e = none;
}

abbrev payment_witness : TransferWitness Residue
payment_witness = transfer_witness payment (pos 5) (pos 7) (pos 0) (pos 0) (pos 0)

abbrev place : BaseEvent
place = record { ledger = 9; tx_hash = "t"; cursor = "9-t-0-0" }

abbrev shown_event : TransferEvent Residue
shown_event = record {
  from = "A";
  to = "B";
  r_e = payment_witness.payload.r_e;
  v_tilde = payment_witness.payload.v_tilde;
  sigma = payment_witness.payload.sigma;
  b_tilde = pos 0;
  v_aud_r = pos 0;
  r_aud_r = pos 0;
  v_aud_s = pos 0;
  b_aud_s = pos 0;
}

abbrev rpc : Source Residue
rpc = record { events_between = λ first last. ok (some (transfer place shown_event) ∷ []) }

abbrev chain : Client Residue
chain = record {
  token = replicate 56 b'C';
  rpc = rpc;
  confidential_balance = λ account. ok (some (record { viewing_public_key = bob.pvk }));
}

-- A prover whose proofs are two bytes.
abbrev prover : CircuitProver
prover = record {
  prove = λ inputs. ok (1 ∷ 2 ∷ []);
  verify = λ proof inputs. ok true;
  verification_key = ok (7 ∷ []);
}

prover_laws : (hidden : ℕ) → ProverLaws prover hidden
prover_laws hidden = record {
  proof_bytes = λ inputs proof h.
      subst (λ p. All (λ b. b < 256) p) (ok_inj h) (omega arith, (omega arith, tt));
  complete = λ inputs proof h. refl;
}

payment_built : build_transfer_witness payment (pos 5) ≡ ok payment_witness
unfolding build_transfer_witness derive_keys vk_from_sk derive_ephemeral_r_e poseidon_with_domain
    sponge absorb ◌-ℤ◌ ◌+ℤ◌ scalar_mul ecdh toy reduce
payment_built = refl

shown : Shown payment (pos 5) payment_witness shown_event
shown = record {
  built = payment_built;
  event = refl;
  canonical = omega arith;
  small = omega arith;
  scalar = tt;
}

resolved :
    hybrid_resolve_event_ref rpc none (event_ref (transfer place shown_event))
    ≡ some (transfer place shown_event)
unfolding hybrid_resolve_event_ref resolve_event_ref matches
resolved = refl

token_address : address_to_field (replicate 56 b'C') ≡ ok (pos 7)
unfolding address_to_field poseidon_with_domain sponge absorb
token_address = refl

-- What the recipient hands back, sealed with the scalar 4 under the nonce 8.
abbrev received : DisclosureBundle
received = record {
  circuit_id = disclose_recipient_circuit_id;
  ref_e = event_ref (transfer place shown_event);
  proof = b'0' ∷ b'x' ∷ bytes_to_hex (1 ∷ 2 ∷ []);
  r_disc = point_to_json (scalar_mul (pos 4) toy.h);
  v_tilde_disc = to_hex_32 (encrypt_disclosure (pos 30) (pos 0) (pos 8));
}

received_made :
    prove_recipient_disclosure bob place shown_event
      (new_disclosure_request (recipient_keys_from_secret Residue (pos 3)) (pos 8))
      prover
      (pos 4)
    ≡ ok received
unfolding prove_recipient_disclosure build_disclose_recipient_witness bundle point_from_json
    point_to_json point_coords recipient_keys_from_secret from_hex to_hex_32 fr_mod fr_add digits_16
    digit_value without_prefix derive_keys vk_from_sk encrypt_disclosure decrypt_with_domain
    poseidon_with_domain sponge absorb scalar_mul ecdh toy reduce ◌-ℤ◌ ◌+ℤ◌ derive_ephemeral_r_e
    encrypt_amount transfer_witness
received_made = refl

verify_disclosure-prove_recipient_disclosure_example :
    let keys = recipient_keys_from_secret Residue (pos 3) in
    verify_disclosure chain none prover
      (some (7 ∷ []))
      received
      (new_disclosure_request keys (pos 8))
      keys
    ≡ ok (record {
      amount = pos 30;
      base = place;
      event = shown_event;
      role = recipient;
      disclosing_account = "B";
    })
verify_disclosure-prove_recipient_disclosure_example =
    verify_disclosure-prove_recipient_disclosure constant_hash_laws toy_laws chain none prover
      (7 ∷ []) payment (pos 5) (pos 3) (pos 7) payment_witness place shown_event (pos 3) (pos 8)
      (pos 4) (record { viewing_public_key = bob.pvk }) received shown refl
      (omega arith, omega arith) (omega arith, omega arith) (omega arith) (prover_laws 3) refl
      resolved refl refl token_address received_made

abbrev sent : DisclosureBundle
sent = record {
  circuit_id = disclose_sender_circuit_id;
  ref_e = event_ref (transfer place shown_event);
  proof = b'0' ∷ b'x' ∷ bytes_to_hex (1 ∷ 2 ∷ []);
  r_disc = point_to_json (scalar_mul (pos 4) toy.h);
  v_tilde_disc = to_hex_32 (encrypt_disclosure (pos 30) (pos 0) (pos 8));
}

sent_made :
    prove_sender_disclosure bob
      (pos 7)
      place
      shown_event
      bob.pvk
      (new_disclosure_request (recipient_keys_from_secret Residue (pos 3)) (pos 8))
      prover
      (pos 4)
    ≡ ok sent
unfolding prove_sender_disclosure build_disclose_sender_witness bundle point_from_json point_to_json
    point_coords recipient_keys_from_secret from_hex to_hex_32 fr_mod fr_add digits_16 digit_value
    without_prefix derive_keys vk_from_sk encrypt_disclosure decrypt_with_domain
    poseidon_with_domain sponge absorb scalar_mul ecdh toy reduce ◌-ℤ◌ ◌+ℤ◌ derive_ephemeral_r_e
    encrypt_amount transfer_witness
sent_made = refl

verify_disclosure-prove_sender_disclosure_example :
    let keys = recipient_keys_from_secret Residue (pos 3) in
    verify_disclosure chain none prover
      (some (7 ∷ []))
      sent
      (new_disclosure_request keys (pos 8))
      keys
    ≡ ok (record {
      amount = pos 30;
      base = place;
      event = shown_event;
      role = sender;
      disclosing_account = "A";
    })
unfolding derive_keys transfer_witness
verify_disclosure-prove_sender_disclosure_example =
    verify_disclosure-prove_sender_disclosure constant_hash_laws toy_laws chain none prover (7 ∷ [])
      payment (pos 5) payment_witness place shown_event (pos 3) (pos 8) (pos 4)
      (record { viewing_public_key = bob.pvk }) (record { viewing_public_key = bob.pvk }) sent shown
      (omega arith, omega arith) (omega arith, omega arith) (omega arith) (prover_laws 4) refl
      resolved refl refl refl refl token_address sent_made

verify_disclosure-Established_example :
    let keys = recipient_keys_from_secret Residue (pos 3) in
    Established chain none prover
      (some (7 ∷ []))
      received
      (new_disclosure_request keys (pos 8))
      keys
      (record {
        amount = pos 30;
        base = place;
        event = shown_event;
        role = recipient;
        disclosing_account = "B";
      })
verify_disclosure-Established_example =
    let keys = recipient_keys_from_secret Residue (pos 3) in
    verify_disclosure-Established chain none prover (some (7 ∷ [])) received
      (new_disclosure_request keys (pos 8)) keys _
      verify_disclosure-prove_recipient_disclosure_example

hybrid_resolve_event_ref-IsNamedBy_example :
    IsNamedBy (event_ref (transfer place shown_event)) (transfer place shown_event)
hybrid_resolve_event_ref-IsNamedBy_example =
    hybrid_resolve_event_ref-IsNamedBy rpc none (event_ref (transfer place shown_event))
      (transfer place shown_event) resolved
