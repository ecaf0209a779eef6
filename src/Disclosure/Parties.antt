-- ===== src/Disclosure/Parties.antt =====
-- The bundles of both parties to a built transfer, before the verifier.
use lumengate.Prelude.{
  ℕ, ◌^◌, ◌≡◌, refl, sym, ap, ◌∙◌, true, false, Option, none, some, List, ◌<ℤ◌, ℤ, pos,
}
use lumengate.Prelude.Result.{ok, >>=-eq-ok, ok_inj}
use mathlib.Core.Path.{subst}
use Prim.Native.String.{String}
use lumengate.Crypto.Field.{IsCanonical, to_hex_32}
use lumengate.Crypto.Poseidon.{Poseidon, PoseidonLaws, encrypt_disclosure}
use lumengate.Crypto.Grumpkin.{Curve, CurveLaws, scalar_mul, ecdh}
use lumengate.Crypto.Keys.{KeyPair, derive_keys, address_to_field}
use lumengate.Chain.Events.{BaseEvent, TransferEvent, transfer}
use lumengate.Chain.Resolve.{Source, event_ref, hybrid_resolve_event_ref}
use lumengate.Witness.Transfer.{TransferParams, TransferWitness, build_transfer_witness}
use lumengate.Witness.Transfer.Laws.{NonnegScalar}
use lumengate.Witness.Disclose.{
  DiscloseWitness, DisclosedEvent, build_disclose_sender_witness, build_disclose_recipient_witness,
}
use lumengate.Witness.Disclose.Laws.{disclosed, sealed, seal, sender_seals, build_disclose-agree}
use lumengate.Disclosure.{
  DisclosureBundle, CircuitProver, disclose_recipient_circuit_id, disclose_sender_circuit_id,
  point_to_json, new_disclosure_request, recipient_keys_from_secret,
}
use lumengate.Disclosure.Prove.{
  disclosed_of, bundle, prove_recipient_disclosure, prove_sender_disclosure,
}
use lumengate.Disclosure.Verify.{
  recipient, sender, AccountKey, Client, VerifiedDisclosure, require_account, second_key,
  open_sealed, verify_disclosure,
}
use lumengate.Disclosure.Opened.{
  IsScalar, point_from_json-point_to_json, is0-scalar_mul, from_hex-canonical, open_sealed-sealed,
}
use lumengate.Disclosure.Accepted.{ProverLaws, recipient_public, sender_public, verify-bundle}

module _ {Point : Type 0} ⦃P : Poseidon⦄ ⦃C : Curve Point⦄ where
  -- What the parts of a sealed amount are.
  record SealedAs (w : DiscloseWitness Point) (amount : ℤ) (key : Point) (nu fresh : ℤ)
      : Type 0 where
    s : ℤ
    secret : ecdh fresh key ≡ ok s
    point : w.r_disc ≡ scalar_mul fresh C.h
    tilde : w.v_tilde_disc ≡ encrypt_disclosure amount s nu

  sealed-SealedAs :
      (w : DiscloseWitness Point) (amount : ℤ) (key : Point) (nu fresh : ℤ)
      → sealed (ok w) ≡ seal amount key nu fresh
      → SealedAs w amount key nu fresh
  sealed-SealedAs w amount key nu fresh h =
      let (s, secret, parts) = >>=-eq-ok (ecdh fresh key) _ (sym h) in
      let same = ok_inj parts in
      record {
        s = s;
        secret = secret;
        point = ap (λ (t : ℤ × Point × ℤ). t.1) (sym same);
        tilde = ap (λ (t : ℤ × Point × ℤ). t.2) (sym same);
      }

  -- The transfer that is disclosed: the event shows what was built.
  pub record Shown (p : TransferParams Point) (salt : ℤ) (w : TransferWitness Point)
      (ev : TransferEvent Point) : Type 0 where
    pub built : build_transfer_witness p salt ≡ ok w
    pub event : disclosed w ≡ disclosed_of ev
    pub canonical : IsCanonical p.amount
    pub small : p.amount <ℤ pos (2 ^ 127)
    pub scalar : NonnegScalar p.r_e

  module _ (PL : PoseidonLaws P) (L : CurveLaws C) where
    opened-bundle :
        (id : String) (b : BaseEvent) (ev : TransferEvent Point) (proof : List ℕ)
        (w : DiscloseWitness Point) (r_r fresh nu amount : ℤ)
        → IsScalar r_r
        → IsScalar fresh
        → IsCanonical nu
        → IsCanonical amount
        → amount <ℤ pos (2 ^ 127)
        → sealed (ok w) ≡ seal amount (scalar_mul r_r C.h) nu fresh
        → let keys = recipient_keys_from_secret Point r_r in
          open_sealed Point (bundle id b ev proof w) (new_disclosure_request keys nu) keys
          ≡ ok amount
    unfolding bundle
    opened-bundle id b ev proof w r_r fresh nu amount hr hf hn ha small h =
        let parts = sealed-SealedAs w amount (scalar_mul r_r C.h) nu fresh h in
        open_sealed-sealed PL L r_r fresh nu amount parts.s (bundle id b ev proof w) hr hf hn ha
          small parts.secret (ap point_to_json parts.point) (ap to_hex_32 parts.tilde)

    module _ (client : Client Point) (indexer : Option (Source Point)) (prover : CircuitProver)
        (vk : List ℕ) where
      -- The verifier accepts the bundle under its own request and returns the disclosure.
      abbrev Accepts : ℤ → ℤ → DisclosureBundle → VerifiedDisclosure Point → Type 0
      Accepts r_r nu made result =
          let keys = recipient_keys_from_secret Point r_r in
          let request = new_disclosure_request keys nu in
          verify_disclosure client indexer prover (some vk) made request keys ≡ ok result

      -- The bundle that the recipient of a built transfer makes for a request is accepted
      -- by the verifier that issued the request, who reads from it the amount of the
      -- transfer and the role recipient: for an amount in [0, r) and below 2^127, scalars
      -- in [1, r), a nonce in [0, r), a chain that resolves the reference to the event and
      -- gives the recipient's viewing key, the contract address that the keys were derived
      -- for, and a prover whose proofs are accepted with the public inputs of their
      -- circuit.
      pub verify_disclosure-prove_recipient_disclosure :
          (p : TransferParams Point) (salt sk addr_f : ℤ) (w : TransferWitness Point)
          (b : BaseEvent) (ev : TransferEvent Point) (r_r nu fresh : ℤ) (account : AccountKey Point)
          (made : DisclosureBundle)
          → Shown p salt w ev
          → p.pvk_b ≡ (derive_keys sk addr_f).pvk
          → IsScalar r_r
          → IsScalar fresh
          → IsCanonical nu
          → ProverLaws prover 3
          → prover.verification_key ≡ ok vk
          → hybrid_resolve_event_ref client.rpc indexer (event_ref (transfer b ev))
            ≡ some (transfer b ev)
          → client.confidential_balance ev.to ≡ ok (some account)
          → account.viewing_public_key ≡ (derive_keys sk addr_f).pvk
          → address_to_field client.token ≡ ok addr_f
          → let keys = recipient_keys_from_secret Point r_r in
            let request = new_disclosure_request keys nu in
            prove_recipient_disclosure (derive_keys sk addr_f) b ev request prover fresh ≡ ok made
            → verify_disclosure client indexer prover (some vk) made request keys
              ≡ ok (record {
                amount = p.amount;
                base = b;
                event = ev;
                role = recipient;
                disclosing_account = ev.to;
              })
      unfolding prove_recipient_disclosure recipient_keys_from_secret derive_keys
      verify_disclosure-prove_recipient_disclosure p salt sk addr_f w b ev r_r nu fresh account made
            shown to hr hf hn laws pinned resolves has stored address h =
          let key : Point = scalar_mul r_r C.h in
          let keys : KeyPair Point = derive_keys sk addr_f in
          let agree =
            build_disclose-agree PL L p salt sk addr_f w key nu fresh none shown.built to
              shown.canonical shown.small shown.scalar in
          let read_key = point_from_json-point_to_json L key (is0-scalar_mul L r_r hr) in
          let h1 = rw (read_key, from_hex-canonical nu hn) at h in
          let (d, builds, h2) = >>=-eq-ok (build_disclose_recipient_witness _ fresh) _ h1 in
          let (proof, proves, h3) = >>=-eq-ok (prover.prove d.inputs) _ h2 in
          let sealing =
            subst
              (λ (e : DisclosedEvent Point).
                sealed (
                  build_disclose_recipient_witness
                    (record { keys = keys; event = e; p_r = key; nu = nu; r_disc = none }) fresh)
                ≡ seal p.amount key nu fresh)
              shown.event agree.1 in
          let opens =
            opened-bundle disclose_recipient_circuit_id b ev proof d r_r fresh nu p.amount hr hf hn
              shown.canonical shown.small (ap sealed (sym builds) ∙ sealing) in
          let public = rw (← stored) at (recipient_public keys ev key nu fresh d builds) in
          subst
            (λ (m : DisclosureBundle). Accepts r_r nu m (record {
              amount = p.amount;
              base = b;
              event = ev;
              role = recipient;
              disclosing_account = ev.to;
            }))
            (ok_inj h3)
            (verify-bundle client indexer prover vk 3 disclose_recipient_circuit_id false b ev proof
              d r_r nu p.amount addr_f account none laws pinned refl refl resolves has refl address
              proves public opens)

      -- The bundle that the sender of a built transfer makes for a request, with the scalar
      -- of the transfer, is accepted by the verifier that issued the request, who reads
      -- from it the amount of the transfer and the role sender: for an amount in [0, r) and
      -- below 2^127, scalars in [1, r), a nonce in [0, r), a chain that resolves the
      -- reference to the event and gives the viewing keys of both parties, the contract
      -- address of the sender's keys, and a prover whose proofs are accepted with the
      -- public inputs of their circuit.
      pub verify_disclosure-prove_sender_disclosure :
          (p : TransferParams Point) (salt : ℤ) (w : TransferWitness Point) (b : BaseEvent)
          (ev : TransferEvent Point) (r_r nu fresh : ℤ) (account account_b : AccountKey Point)
          (made : DisclosureBundle)
          → Shown p salt w ev
          → IsScalar r_r
          → IsScalar fresh
          → IsCanonical nu
          → ProverLaws prover 4
          → prover.verification_key ≡ ok vk
          → hybrid_resolve_event_ref client.rpc indexer (event_ref (transfer b ev))
            ≡ some (transfer b ev)
          → client.confidential_balance ev.from ≡ ok (some account)
          → account.viewing_public_key ≡ p.keys.pvk
          → client.confidential_balance ev.to ≡ ok (some account_b)
          → account_b.viewing_public_key ≡ p.pvk_b
          → address_to_field client.token ≡ ok p.keys.addr_f
          → let keys = recipient_keys_from_secret Point r_r in
            let request = new_disclosure_request keys nu in
            prove_sender_disclosure p.keys w.r_e_scalar b ev p.pvk_b request prover fresh ≡ ok made
            → verify_disclosure client indexer prover (some vk) made request keys
              ≡ ok (record {
                amount = p.amount;
                base = b;
                event = ev;
                role = sender;
                disclosing_account = ev.from;
              })
      unfolding prove_sender_disclosure recipient_keys_from_secret derive_keys
      verify_disclosure-prove_sender_disclosure p salt w b ev r_r nu fresh account account_b made
            shown hr hf hn laws pinned resolves has stored has_b stored_b address h =
          let key : Point = scalar_mul r_r C.h in
          let seals =
            sender_seals p salt w key nu fresh none shown.built shown.canonical shown.small in
          let read_key = point_from_json-point_to_json L key (is0-scalar_mul L r_r hr) in
          let h1 = rw (read_key, from_hex-canonical nu hn) at h in
          let (d, builds, h2) = >>=-eq-ok (build_disclose_sender_witness _ fresh) _ h1 in
          let (proof, proves, h3) = >>=-eq-ok (prover.prove d.inputs) _ h2 in
          let sealing =
            subst
              (λ (e : DisclosedEvent Point).
                sealed (
                  build_disclose_sender_witness
                    (record {
                      keys = p.keys;
                      r_e_scalar = w.r_e_scalar;
                      event = e;
                      pvk_b = p.pvk_b;
                      p_r = key;
                      nu = nu;
                      r_disc = none;
                    })
                    fresh)
                ≡ seal p.amount key nu fresh)
              shown.event seals in
          let opens =
            opened-bundle disclose_sender_circuit_id b ev proof d r_r fresh nu p.amount hr hf hn
              shown.canonical shown.small (ap sealed (sym builds) ∙ sealing) in
          let public =
            rw (← stored) at (sender_public p.keys w.r_e_scalar ev p.pvk_b key nu fresh d builds) in
          let second : second_key true client ev.to ≡ ok (some p.pvk_b) =
            (unfold require_account in rw (has_b, stored_b) refl) in
          subst
            (λ (m : DisclosureBundle). Accepts r_r nu m (record {
              amount = p.amount;
              base = b;
              event = ev;
              role = sender;
              disclosing_account = ev.from;
            }))
            (ok_inj h3)
            (verify-bundle client indexer prover vk 4 disclose_sender_circuit_id true b ev proof d
              r_r nu p.amount p.keys.addr_f account (some p.pvk_b) laws pinned refl refl resolves
              has second address proves public opens)
