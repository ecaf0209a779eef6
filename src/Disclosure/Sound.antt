-- ===== src/Disclosure/Sound.antt =====
-- What the verifier has checked of a bundle that it accepts.
use lumengate.Prelude.{
  ℕ, ◌^◌, ◌≡◌, refl, ap, ◌∙◌, inl, inr, Bool, true, false, not, ◌||◌, Option, none, some, List,
  arith, if◌then◌else◌, Bool-cases, same_list, same_list→eq, ◌<ℤ◌, leb_ℤ, ℤ, pos, negsuc,
}
use lumengate.Prelude.Result.{
  Result, ok, err, err, vk_pinning, disclosure_verify, >>=-eq-ok, ok_inj, guard-eq-ok,
}
use mathlib.Core.Path.{subst}
use text.Mathlib.Text.{◌==◌ as str_eq}
use lumengate.Crypto.Field.Hex.{hex_to_bytes}
use lumengate.Crypto.Field.Numeral.{from_hex}
use lumengate.Crypto.Poseidon.{Poseidon}
use lumengate.Crypto.Grumpkin.{Curve}
use lumengate.Chain.Events.{ConfidentialEvent, BaseEvent, TransferEvent, transfer}
use lumengate.Chain.Resolve.{
  Source, IsNamedBy, hybrid_resolve_event_ref, hybrid_resolve_event_ref-IsNamedBy,
}
use lumengate.Disclosure.{
  DisclosureRequest, DisclosureBundle, RecipientKeys, CircuitProver, disclose_sender_circuit_id,
  point_from_json, decrypt_disclosure,
}
use lumengate.Disclosure.Verify.{
  recipient, sender, Client, VerifiedDisclosure, key_matches, check_request, transfer_of,
  disclosing, public_inputs, open_sealed, verify_disclosure,
}

-- The key of the circuit is the pinned one, where one is pinned.
abbrev pub IsPinned : CircuitProver → Option (List ℕ) → Type 0
IsPinned prover none = Unit
IsPinned prover (some pinned_vk) = prover.verification_key ≡ ok pinned_vk

key_matches-IsPinned :
    (prover : CircuitProver) (pinned_vk : Option (List ℕ))
    → key_matches prover pinned_vk ≡ ok tt
    → IsPinned prover pinned_vk
key_matches-IsPinned prover none h = tt
key_matches-IsPinned prover (some pinned_vk) h =
    let (vk, read, last) = >>=-eq-ok prover.verification_key _ h in
    elim (Bool-cases (same_list vk pinned_vk)) [
      | inl y ↦ read ∙ ap ok (same_list→eq vk pinned_vk y)
      | inr n ↦ let e : err (disclosure_verify vk_pinning) ≡ ok tt = rw n at last in cc
    ]

or-false : (a b : Bool) → not a || not b ≡ false → (a ≡ true) × (b ≡ true)
or-false true true h = (refl, refl)
or-false true false h = cc
or-false false b h = cc

not-false : (b : Bool) → not b ≡ false → b ≡ true
not-false true h = refl
not-false false h = cc

record Issued (prover : CircuitProver) (pinned_vk : Option (List ℕ)) (request : DisclosureRequest)
    (keys : RecipientKeys) : Type 0 where
  key_x : request.p_r.x ≡ keys.p_r.x
  key_y : request.p_r.y ≡ keys.p_r.y
  pinned : IsPinned prover pinned_vk

check_request-Issued :
    (prover : CircuitProver) (pinned_vk : Option (List ℕ)) (bundle : DisclosureBundle)
    (request : DisclosureRequest) (keys : RecipientKeys)
    → check_request prover pinned_vk bundle request keys ≡ ok tt
    → Issued prover pinned_vk request keys
unfolding check_request
check_request-Issued prover pinned_vk bundle request keys h =
    let (known, h1) = guard-eq-ok _ _ _ h in
    let (same, h2) = guard-eq-ok _ _ _ h1 in
    let (x, y) =
      or-false (same_list request.p_r.x keys.p_r.x) (same_list request.p_r.y keys.p_r.y) same in
    record {
      key_x = same_list→eq request.p_r.x keys.p_r.x x;
      key_y = same_list→eq request.p_r.y keys.p_r.y y;
      pinned = key_matches-IsPinned prover pinned_vk h2;
    }

below_limit : (v : ℤ) → leb_ℤ (pos (2 ^ 127)) v ≡ false → v <ℤ pos (2 ^ 127)
below_limit (pos v) h = ground arith
below_limit (negsuc v) h = ground arith

module _ {Point : Type 0} where
  transfer_of-eq :
      (found : Option (ConfidentialEvent Point)) (t : BaseEvent × TransferEvent Point)
      → transfer_of found ≡ ok t
      → found ≡ some (transfer t.0 t.1)
  transfer_of-eq none t h = cc
  transfer_of-eq (some (transfer b ev)) t h =
      ap (λ (u : BaseEvent × TransferEvent Point). some (transfer u.0 u.1)) (ok_inj h)
  transfer_of-eq (some (ConfidentialEvent.register b account n)) t h = cc
  transfer_of-eq (some (ConfidentialEvent.deposit b x y a)) t h = cc
  transfer_of-eq (some (ConfidentialEvent.merge b account)) t h = cc
  transfer_of-eq (some (ConfidentialEvent.withdraw b ev)) t h = cc

module _ {Point : Type 0} ⦃P : Poseidon⦄ ⦃C : Curve Point⦄ (client : Client Point)
    (indexer : Option (Source Point)) (prover : CircuitProver) (pinned_vk : Option (List ℕ))
    (bundle : DisclosureBundle) (request : DisclosureRequest) (keys : RecipientKeys) where
  pub record Established (v : VerifiedDisclosure Point) : Type 0 where
    pub is_sender : Bool
    pub inputs : List (List ℕ)
    pub proof : List ℕ
    pub key_x : request.p_r.x ≡ keys.p_r.x
    pub key_y : request.p_r.y ≡ keys.p_r.y
    pub pinned : IsPinned prover pinned_vk
    pub named : IsNamedBy bundle.ref_e (transfer v.base v.event)
    pub on_chain :
        hybrid_resolve_event_ref client.rpc indexer bundle.ref_e ≡ some (transfer v.base v.event)
    pub circuit : str_eq bundle.circuit_id disclose_sender_circuit_id ≡ is_sender
    pub side : v.role ≡ (if is_sender then sender else recipient)
    pub account : v.disclosing_account ≡ disclosing is_sender v.event
    pub rebuilt : public_inputs client bundle request is_sender v.event ≡ ok inputs
    pub decoded : hex_to_bytes bundle.proof ≡ ok proof
    pub proved : prover.verify proof inputs ≡ ok true
    pub opened : open_sealed Point bundle request keys ≡ ok v.amount
    pub small : v.amount <ℤ pos (2 ^ 127)

  open_sealed-small :
      (amount : ℤ) → open_sealed Point bundle request keys ≡ ok amount → amount <ℤ pos (2 ^ 127)
  unfolding open_sealed
  open_sealed-small amount h =
      let point : Result Point = point_from_json bundle.r_disc in
      let (r_disc, e1, h1) = >>=-eq-ok point _ h in
      let (v_tilde_disc, e2, h2) = >>=-eq-ok (from_hex bundle.v_tilde_disc) _ h1 in
      let (nu, e3, h3) = >>=-eq-ok (from_hex request.nu) _ h2 in
      let (v, e4, h4) = >>=-eq-ok (decrypt_disclosure keys.r_r r_disc v_tilde_disc nu) _ h3 in
      let (below, h5) = guard-eq-ok _ _ _ h4 in
      subst (λ a. a <ℤ pos (2 ^ 127)) (ok_inj h5) (below_limit v below)

  -- What stands behind a disclosure that verifyDisclosure returns: the request carries the
  -- verifier's own key; the circuit's verification key is the pinned one, where one is pinned;
  -- the reference resolves on the chain to the returned transfer, which has the id and the
  -- transaction hash of the reference; the role and the disclosing account are those of the
  -- bundle's circuit; the decoded proof was accepted for the public inputs rebuilt from the
  -- chain and the request; and the amount is what the ciphertext opens to, below 2^127.
  pub verify_disclosure-Established :
      (v : VerifiedDisclosure Point)
      → verify_disclosure client indexer prover pinned_vk bundle request keys ≡ ok v
      → Established v
  unfolding verify_disclosure
  verify_disclosure-Established v h =
      let is_sender = str_eq bundle.circuit_id disclose_sender_circuit_id in
      let found = hybrid_resolve_event_ref client.rpc indexer bundle.ref_e in
      let (done, checks, h1) = >>=-eq-ok (check_request prover pinned_vk bundle request keys) _ h in
      let issued = check_request-Issued prover pinned_vk bundle request keys checks in
      let (t, transfers, h2) = >>=-eq-ok (transfer_of found) _ h1 in
      let (inputs, rebuilt, h3) =
        >>=-eq-ok (public_inputs client bundle request is_sender t.1) _ h2 in
      let (proof, decoded, h4) = >>=-eq-ok (hex_to_bytes bundle.proof) _ h3 in
      let (answer, verified, h5) = >>=-eq-ok (prover.verify proof inputs) _ h4 in
      let (accepted, h6) = guard-eq-ok _ _ _ h5 in
      let (amount, opened, h7) = >>=-eq-ok (open_sealed Point bundle request keys) _ h6 in
      let on_chain = transfer_of-eq found t transfers in
      let answered : answer ≡ true = not-false answer accepted in
      subst Established (ok_inj h7) (record {
        is_sender = is_sender;
        inputs = inputs;
        proof = proof;
        key_x = issued.key_x;
        key_y = issued.key_y;
        pinned = issued.pinned;
        named = hybrid_resolve_event_ref-IsNamedBy client.rpc indexer bundle.ref_e _ on_chain;
        on_chain = on_chain;
        circuit = refl;
        side = refl;
        account = refl;
        rebuilt = rebuilt;
        decoded = decoded;
        proved = verified ∙ ap ok answered;
        opened = opened;
        small = open_sealed-small amount opened;
      })
