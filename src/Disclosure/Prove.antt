-- ===== src/Disclosure/Prove.antt =====
-- disclosure/prove.ts: the holder's bundle.
use lumengate.Prelude.{ℕ, none, List, ◌∷◌, ℤ}
use lumengate.Prelude.Result.{Result, ok, ◌>>=◌}
use Prim.Native.String.{String}
use lumengate.Crypto.Field.{to_hex_32, bytes_to_hex}
use lumengate.Crypto.Field.Numeral.{from_hex}
use lumengate.Crypto.Poseidon.{Poseidon}
use lumengate.Crypto.Grumpkin.{Curve}
use lumengate.Crypto.Keys.{KeyPair}
use lumengate.Chain.Events.{BaseEvent, TransferEvent, transfer}
use lumengate.Chain.Resolve.{event_ref}
use lumengate.Witness.Disclose.{
  DisclosedEvent, DiscloseWitness, build_disclose_sender_witness, build_disclose_recipient_witness,
}
use lumengate.Disclosure.{
  DisclosureRequest, DisclosureBundle, CircuitProver, disclose_recipient_circuit_id,
  disclose_sender_circuit_id, point_to_json, point_from_json,
}

-- `{ rE: event.rE, sigma: event.sigma, vTilde: event.vTilde }`.
abbrev pub disclosed_of : {Point : Type 0} → TransferEvent Point → DisclosedEvent Point
disclosed_of ev = record { r_e = ev.r_e; sigma = ev.sigma; v_tilde = ev.v_tilde }

module _ {Point : Type 0} ⦃C : Curve Point⦄ where
  unfoldable pub bundle :
      String → BaseEvent → TransferEvent Point → List ℕ → DiscloseWitness Point → DisclosureBundle
  unfolding point_to_json
  bundle circuit_id b ev proof w = record {
    circuit_id = circuit_id;
    ref_e = event_ref (transfer b ev);
    proof = b'0' ∷ b'x' ∷ bytes_to_hex proof;
    r_disc = point_to_json w.r_disc;
    v_tilde_disc = to_hex_32 w.v_tilde_disc;
  }

  module _ ⦃P : Poseidon⦄ where
    unfoldable pub prove_recipient_disclosure :
        KeyPair Point
        → BaseEvent
        → TransferEvent Point
        → DisclosureRequest
        → CircuitProver
        → ℤ
        → Result DisclosureBundle
    unfolding bundle
    prove_recipient_disclosure keys b ev request prover fresh = do
      p_r ← point_from_json request.p_r
      nu ← from_hex request.nu
      w ←
          build_disclose_recipient_witness
            (record { keys = keys; event = disclosed_of ev; p_r = p_r; nu = nu; r_disc = none })
            fresh
      proof ← prover.prove w.inputs
      ok (bundle disclose_recipient_circuit_id b ev proof w)

    unfoldable pub prove_sender_disclosure :
        KeyPair Point
        → ℤ
        → BaseEvent
        → TransferEvent Point
        → Point
        → DisclosureRequest
        → CircuitProver
        → ℤ
        → Result DisclosureBundle
    unfolding bundle
    prove_sender_disclosure keys r_e_scalar b ev pvk_b request prover fresh = do
      p_r ← point_from_json request.p_r
      nu ← from_hex request.nu
      w ←
          build_disclose_sender_witness
            (record {
              keys = keys;
              r_e_scalar = r_e_scalar;
              event = disclosed_of ev;
              pvk_b = pvk_b;
              p_r = p_r;
              nu = nu;
              r_disc = none;
            })
            fresh
      proof ← prover.prove w.inputs
      ok (bundle disclose_sender_circuit_id b ev proof w)
