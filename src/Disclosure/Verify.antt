-- ===== src/Disclosure/Verify.antt =====
-- disclosure/verify.ts: the verifier. The trace of the steps, which is shown to the user, is left
-- out; the chain is not changed by another party between the calls.
use lumengate.Prelude.{
  ℕ, ◌^◌, Bool, true, false, not, ◌||◌, Option, none, some, List, [], ◌∷◌, ◌++◌, if◌then◌else◌,
  same_list, leb_ℤ, ℤ, pos,
}
use lumengate.Prelude.Result.{
  Result, ok, err, ◌>>=◌, err, vk_pinning, resolve_event, resolve_account, verify_proof, decrypt,
  disclosure_verify,
}
use Prim.Native.String.{String}
use text.Mathlib.Text.{◌==◌ as str_eq}
use lumengate.Crypto.Field.{to_hex_32}
use lumengate.Crypto.Field.Hex.{hex_to_bytes}
use lumengate.Crypto.Field.Numeral.{from_hex}
use lumengate.Crypto.Poseidon.{Poseidon}
use lumengate.Crypto.Grumpkin.{Curve, point_coords}
use lumengate.Crypto.Keys.{address_to_field}
use lumengate.Chain.Events.{ConfidentialEvent, BaseEvent, TransferEvent, transfer}
use lumengate.Chain.Resolve.{Source, hybrid_resolve_event_ref}
use lumengate.Disclosure.{
  DisclosureRequest, DisclosureBundle, RecipientKeys, CircuitProver, disclose_recipient_circuit_id,
  disclose_sender_circuit_id, point_from_json, decrypt_disclosure,
}

pub data Role : Type 0 where
  recipient sender : Role

-- What the code reads of the account that `confidentialBalance` returns.
pub record AccountKey (Point : Type 0) : Type 0 where
  pub viewing_public_key : Point

-- The chain as the verifier reads it; `token` is the text of the contract's address.
pub record Client (Point : Type 0) : Type 0 where
  pub token : List ℕ
  pub rpc : Source Point
  pub confidential_balance : String → Result (Option (AccountKey Point))

pub record VerifiedDisclosure (Point : Type 0) : Type 0 where
  pub amount : ℤ
  pub base : BaseEvent
  pub event : TransferEvent Point
  pub role : Role
  pub disclosing_account : String

-- `toHex32(fromHex(h))` of each text.
unfoldable pub normalize : List (List ℕ) → Result (List (List ℕ))
normalize [] = ok []
normalize (h ∷ texts) = do x ← from_hex h; rest ← normalize texts; ok (to_hex_32 x ∷ rest)

-- The result of a check.
abbrev pub Checked : Type 0
Checked = Unit

abbrev pub key_matches : CircuitProver → Option (List ℕ) → Result Checked
key_matches prover none = ok tt
key_matches prover (some pinned_vk) = do
  vk ← prover.verification_key
  if same_list vk pinned_vk then ok tt else err (disclosure_verify vk_pinning)

-- The checks before the chain is read.
unfoldable pub check_request :
    CircuitProver
    → Option (List ℕ)
    → DisclosureBundle
    → DisclosureRequest
    → RecipientKeys
    → Result Checked
unfolding same_list
check_request prover pinned_vk bundle request keys =
    let id = bundle.circuit_id in
    if not (str_eq id disclose_recipient_circuit_id || str_eq id disclose_sender_circuit_id)
    then err (disclosure_verify vk_pinning)
    else if not (same_list request.p_r.x keys.p_r.x) || not (same_list request.p_r.y keys.p_r.y)
    then err (disclosure_verify decrypt)
    else key_matches prover pinned_vk

module _ {Point : Type 0} where
  abbrev pub transfer_of :
      Option (ConfidentialEvent Point) → Result (BaseEvent × TransferEvent Point)
  transfer_of (some (transfer b ev)) = ok (b, ev)
  transfer_of found = err (disclosure_verify resolve_event)

  abbrev pub account_of : Option (AccountKey Point) → Result (AccountKey Point)
  account_of (some account) = ok account
  account_of none = err (disclosure_verify resolve_account)

  unfoldable pub require_account : Client Point → String → Result (AccountKey Point)
  require_account client account = client.confidential_balance account >>= λ found. account_of found

  abbrev pub disclosing : Bool → TransferEvent Point → String
  disclosing is_sender ev = if is_sender then ev.from else ev.to

module _ (Point : Type 0) ⦃C : Curve Point⦄ ⦃P : Poseidon⦄ where
  -- Opens the sealed amount.
  unfoldable pub open_sealed : DisclosureBundle → DisclosureRequest → RecipientKeys → Result ℤ
  open_sealed bundle request keys = do
    let point : Result Point = point_from_json bundle.r_disc
    r_disc ← point
    v_tilde_disc ← from_hex bundle.v_tilde_disc
    nu ← from_hex request.nu
    amount ← decrypt_disclosure keys.r_r r_disc v_tilde_disc nu
    if leb_ℤ (pos (2 ^ 127)) amount then err (disclosure_verify decrypt) else ok amount

module _ {Point : Type 0} ⦃C : Curve Point⦄ where
  abbrev pub hex_pair : Point → List (List ℕ)
  hex_pair p = let xy = point_coords p in to_hex_32 xy.0 ∷ to_hex_32 xy.1 ∷ []

  abbrev pub hex_pair? : Option Point → List (List ℕ)
  hex_pair? none = []
  hex_pair? (some p) = hex_pair p

  -- The public inputs before they are normalised, in the order of the circuit.
  unfoldable pub claimed_inputs :
      ℤ
      → Point
      → TransferEvent Point
      → Option Point
      → DisclosureRequest
      → DisclosureBundle
      → List (List ℕ)
  claimed_inputs addr_f pvk_a ev pvk_b request bundle =
      to_hex_32 addr_f ∷ hex_pair pvk_a
      ++ hex_pair ev.r_e
      ++ to_hex_32 ev.sigma ∷ to_hex_32 ev.v_tilde ∷ hex_pair? pvk_b
      ++ request.p_r.x ∷ request.p_r.y ∷ request.nu ∷ bundle.r_disc.x ∷ bundle.r_disc.y
        ∷ bundle.v_tilde_disc ∷ []

  -- The viewing key of the other party, which only the sender's circuit takes.
  abbrev pub second_key : Bool → Client Point → String → Result (Option Point)
  second_key false client to = ok none
  second_key true client to = do
    account_b ← require_account client to
    ok (some account_b.viewing_public_key)

  module _ ⦃P : Poseidon⦄ where
    -- The public inputs, from the chain and the verifier's own request.
    unfoldable pub public_inputs :
        Client Point
        → DisclosureBundle
        → DisclosureRequest
        → Bool
        → TransferEvent Point
        → Result (List (List ℕ))
    unfolding require_account normalize claimed_inputs
    public_inputs client bundle request is_sender ev = do
      account_a ← require_account client (disclosing is_sender ev)
      pvk_b ← second_key is_sender client ev.to
      addr_f ← address_to_field client.token
      normalize (claimed_inputs addr_f account_a.viewing_public_key ev pvk_b request bundle)

    unfoldable pub verify_disclosure :
        Client Point
        → Option (Source Point)
        → CircuitProver
        → Option (List ℕ)
        → DisclosureBundle
        → DisclosureRequest
        → RecipientKeys
        → Result (VerifiedDisclosure Point)
    unfolding check_request public_inputs open_sealed
    verify_disclosure client indexer prover pinned_vk bundle request keys = do
      _ ← check_request prover pinned_vk bundle request keys
      (b, ev) ← transfer_of (hybrid_resolve_event_ref client.rpc indexer bundle.ref_e)
      let is_sender = str_eq bundle.circuit_id disclose_sender_circuit_id
      inputs ← public_inputs client bundle request is_sender ev
      proof ← hex_to_bytes bundle.proof
      accepted ← prover.verify proof inputs
      if not accepted then err (disclosure_verify verify_proof) else do
        amount ← open_sealed Point bundle request keys
        ok (record {
          amount = amount;
          base = b;
          event = ev;
          role = if is_sender then sender else recipient;
          disclosing_account = disclosing is_sender ev;
        })
