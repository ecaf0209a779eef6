-- ===== src/Disclosure/Accepted.antt =====
-- A bundle that is made of a witness and its proof, before the verifier.
use lumengate.Prelude.{
  ℕ, ◌<◌, ◌≡◌, refl, sym, ap, ◌∙◌, Bool, true, ◌||◌, Option, none, some, List, [], ◌∷◌, ◌++◌, map,
  if◌then◌else◌, drop, All, same_list_refl, ℤ,
}
use lumengate.Prelude.Result.{ok, >>=-eq-ok, ok_inj, guard-eq-ok}
use Prim.Native.String.{String}
use text.Mathlib.Text.{◌==◌ as str_eq}
use mathlib.Core.Path.{subst}
use lumengate.Crypto.Field.{to_hex_32}
use lumengate.Crypto.Field.Hex.{hex_to_bytes-prefixed}
use lumengate.Crypto.Poseidon.{Poseidon}
use lumengate.Crypto.Grumpkin.{Curve, scalar_mul, ecdh, point_coords}
use lumengate.Crypto.Keys.{KeyPair, address_to_field}
use lumengate.Chain.Events.{BaseEvent, TransferEvent, transfer}
use lumengate.Chain.Resolve.{Source, event_ref, hybrid_resolve_event_ref}
use lumengate.Witness.Common.{NoirInputs, field_in, point_in}
use lumengate.Witness.Disclose.{
  DiscloseWitness, build_disclose_sender_witness, build_disclose_recipient_witness,
}
use lumengate.Disclosure.{
  DisclosureBundle, RecipientKeys, CircuitProver, disclose_recipient_circuit_id,
  disclose_sender_circuit_id, point_to_json, new_disclosure_request, recipient_keys_from_secret,
}
use lumengate.Disclosure.Prove.{disclosed_of, bundle}
use lumengate.Disclosure.Verify.{
  recipient, sender, AccountKey, Client, claimed_inputs, public_inputs, check_request, open_sealed,
  verify_disclosure, normalize, require_account, second_key, disclosing,
}
use lumengate.Disclosure.Opened.{hex_texts, normalize-hex_texts}

-- The texts of the public inputs: those of the inputs behind the first `hidden`.
abbrev pub public_part : ℕ → NoirInputs → List (List ℕ)
public_part hidden inputs = map (λ entry. entry.1) (drop hidden inputs)

-- What the code relies on: of a circuit whose first `hidden` inputs are the private ones, a proof is
-- a sequence of bytes, and it is accepted with the public ones.
pub record ProverLaws (prover : CircuitProver) (hidden : ℕ) : Type 0 where
  pub proof_bytes :
      (inputs : NoirInputs) (proof : List ℕ)
      → prover.prove inputs ≡ ok proof
      → All (λ b. b < 256) proof
  pub complete :
      (inputs : NoirInputs) (proof : List ℕ)
      → prover.prove inputs ≡ ok proof
      → prover.verify proof (public_part hidden inputs) ≡ ok true

-- The two values of a point.
abbrev pub pair : {Point : Type 0} ⦃C : Curve Point⦄ → Point → List ℤ
pair p = (point_coords p).0 ∷ (point_coords p).1 ∷ []

abbrev pub pair? : {Point : Type 0} ⦃C : Curve Point⦄ → Option Point → List ℤ
pair? none = []
pair? (some p) = pair p

module _ {Point : Type 0} ⦃P : Poseidon⦄ ⦃C : Curve Point⦄ where
  -- The values of the public inputs.
  abbrev pub public_values :
      ℤ → Point → TransferEvent Point → Option Point → Point → ℤ → Point → ℤ → List ℤ
  public_values addr_f pvk_a ev pvk_b p_r nu r_disc v_tilde_disc =
      addr_f ∷ pair pvk_a
      ++ pair ev.r_e
      ++ ev.sigma ∷ ev.v_tilde ∷ pair? pvk_b
      ++ pair p_r
      ++ nu ∷ pair r_disc
      ++ v_tilde_disc ∷ []

  pub recipient_public :
      (keys : KeyPair Point) (ev : TransferEvent Point) (p_r : Point) (nu fresh : ℤ)
      (w : DiscloseWitness Point)
      → build_disclose_recipient_witness
          (record { keys = keys; event = disclosed_of ev; p_r = p_r; nu = nu; r_disc = none })
          fresh
        ≡ ok w
      → public_part 3 w.inputs
        ≡ hex_texts (public_values keys.addr_f keys.pvk ev none p_r nu w.r_disc w.v_tilde_disc)
  unfolding build_disclose_recipient_witness field_in point_in
  recipient_public keys ev p_r nu fresh w h =
      let (s_x, secret, h1) = >>=-eq-ok (ecdh keys.vk ev.r_e) _ h in
      let (small, h2) = guard-eq-ok _ _ _ h1 in
      let (s_disc_x, sealing, h3) = >>=-eq-ok (ecdh fresh p_r) _ h2 in
      subst
        (λ (w : DiscloseWitness Point).
          public_part 3 w.inputs
          ≡ hex_texts (public_values keys.addr_f keys.pvk ev none p_r nu w.r_disc w.v_tilde_disc))
        (ok_inj h3) refl

  pub sender_public :
      (keys : KeyPair Point) (r_e_scalar : ℤ) (ev : TransferEvent Point) (pvk_b p_r : Point)
      (nu fresh : ℤ) (w : DiscloseWitness Point)
      → build_disclose_sender_witness
          (record {
            keys = keys;
            r_e_scalar = r_e_scalar;
            event = disclosed_of ev;
            pvk_b = pvk_b;
            p_r = p_r;
            nu = nu;
            r_disc = none;
          })
          fresh
        ≡ ok w
      → public_part 4 w.inputs
        ≡ hex_texts
            (public_values keys.addr_f keys.pvk ev (some pvk_b) p_r nu w.r_disc w.v_tilde_disc)
  unfolding build_disclose_sender_witness field_in point_in
  sender_public keys r_e_scalar ev pvk_b p_r nu fresh w h =
      let (same, h0) = guard-eq-ok _ _ _ h in
      let (s_bx, secret, h1) = >>=-eq-ok (ecdh r_e_scalar pvk_b) _ h0 in
      let (small, h2) = guard-eq-ok _ _ _ h1 in
      let (s_disc_x, sealing, h3) = >>=-eq-ok (ecdh fresh p_r) _ h2 in
      subst
        (λ (w : DiscloseWitness Point).
          public_part 4 w.inputs
          ≡ hex_texts
              (public_values keys.addr_f keys.pvk ev (some pvk_b) p_r nu w.r_disc w.v_tilde_disc))
        (ok_inj h3) refl

  claimed-public_values :
      (addr_f : ℤ) (pvk_a : Point) (ev : TransferEvent Point) (pvk_b : Option Point) (key : Point)
      (nu : ℤ) (id : String) (b : BaseEvent) (proof : List ℕ) (w : DiscloseWitness Point)
      → claimed_inputs addr_f pvk_a ev pvk_b
          (record { p_r = point_to_json key; nu = to_hex_32 nu })
          (bundle id b ev proof w)
        ≡ hex_texts (public_values addr_f pvk_a ev pvk_b key nu w.r_disc w.v_tilde_disc)
  unfolding claimed_inputs bundle point_to_json
  claimed-public_values addr_f pvk_a ev none key nu id b proof w = refl
  claimed-public_values addr_f pvk_a ev (some pvk_b) key nu id b proof w = refl

  module _ (client : Client Point) (indexer : Option (Source Point)) (prover : CircuitProver)
      (vk : List ℕ) where
    check_request-issued :
        (bundle : DisclosureBundle) (keys : RecipientKeys) (nu : ℤ)
        → prover.verification_key ≡ ok vk
        → str_eq bundle.circuit_id disclose_recipient_circuit_id
            || str_eq bundle.circuit_id disclose_sender_circuit_id
          ≡ true
        → check_request prover (some vk) bundle (new_disclosure_request keys nu) keys ≡ ok tt
    unfolding check_request
    check_request-issued bundle keys nu key known =
        rw (known, same_list_refl keys.p_r.x, same_list_refl keys.p_r.y, key, same_list_refl vk)
          refl

    public_inputs-values :
        (id : String) (is_sender : Bool) (b : BaseEvent) (ev : TransferEvent Point) (proof : List ℕ)
        (w : DiscloseWitness Point) (key : Point) (nu addr_f : ℤ) (account : AccountKey Point)
        (pvk_b : Option Point)
        → client.confidential_balance (disclosing is_sender ev) ≡ ok (some account)
        → second_key is_sender client ev.to ≡ ok pvk_b
        → address_to_field client.token ≡ ok addr_f
        → public_inputs client
            (bundle id b ev proof w)
            (record { p_r = point_to_json key; nu = to_hex_32 nu })
            is_sender
            ev
          ≡ ok (
              hex_texts (
                public_values addr_f account.viewing_public_key ev pvk_b key nu w.r_disc
                  w.v_tilde_disc))
    unfolding public_inputs require_account
    public_inputs-values id is_sender b ev proof w key nu addr_f account pvk_b has second address =
        rw (has, second, address)
          (ap normalize
              (claimed-public_values addr_f account.viewing_public_key ev pvk_b key nu id b proof w)
            ∙ normalize-hex_texts (
                public_values addr_f account.viewing_public_key ev pvk_b key nu w.r_disc
                  w.v_tilde_disc))

    pub verify-bundle :
        (hidden : ℕ) (id : String) (is_sender : Bool) (b : BaseEvent) (ev : TransferEvent Point)
        (proof : List ℕ) (w : DiscloseWitness Point) (r_r nu amount addr_f : ℤ)
        (account : AccountKey Point) (pvk_b : Option Point)
        → ProverLaws prover hidden
        → prover.verification_key ≡ ok vk
        → str_eq id disclose_recipient_circuit_id || str_eq id disclose_sender_circuit_id ≡ true
        → str_eq id disclose_sender_circuit_id ≡ is_sender
        → hybrid_resolve_event_ref client.rpc indexer (event_ref (transfer b ev))
          ≡ some (transfer b ev)
        → client.confidential_balance (disclosing is_sender ev) ≡ ok (some account)
        → second_key is_sender client ev.to ≡ ok pvk_b
        → address_to_field client.token ≡ ok addr_f
        → prover.prove w.inputs ≡ ok proof
        → public_part hidden w.inputs
          ≡ hex_texts (
              public_values addr_f account.viewing_public_key ev pvk_b
                (scalar_mul r_r C.h)
                nu
                w.r_disc
                w.v_tilde_disc)
        → let keys = recipient_keys_from_secret Point r_r in
          let request = new_disclosure_request keys nu in
          open_sealed Point (bundle id b ev proof w) request keys ≡ ok amount
          → verify_disclosure client indexer prover (some vk) (bundle id b ev proof w) request keys
            ≡ ok (record {
              amount = amount;
              base = b;
              event = ev;
              role = if is_sender then sender else recipient;
              disclosing_account = disclosing is_sender ev;
            })
    unfolding verify_disclosure recipient_keys_from_secret bundle
    verify-bundle hidden id is_sender b ev proof w r_r nu amount addr_f account pvk_b laws key known
          which resolves has second address proves public opens =
        let keys = recipient_keys_from_secret Point r_r in
        let made = bundle id b ev proof w in
        let inputs =
          public_inputs-values id is_sender b ev proof w (scalar_mul r_r C.h) nu addr_f account
            pvk_b has second address
          ∙ ap ok (sym public) in
        let bytes = hex_to_bytes-prefixed proof (laws.proof_bytes w.inputs proof proves) in
        rw (check_request-issued made keys nu key known) (
          rw (resolves, which)
            (rw inputs (rw (bytes, laws.complete w.inputs proof proves) (rw opens refl))))
