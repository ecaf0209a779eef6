-- ===== src/Issuer/Provable.antt =====
-- The circuit on the inputs that the issuer hands out.
use lumengate.Prelude.{
  ℕ, ◌%◌, ◌^◌, ◌≤◌, ◌<◌, ◌≡◌, refl, sym, ap, ◌∙◌, ◌≢◌, Bool, true, false, not, ◌&&◌, ◌||◌, List, [],
  ◌∷◌, arith, leb, le→leb, length, replicate, same_list, same_list→eq, eqb_ℤ, ℤ, pos,
}
use lumengate.Prelude.Result.{ok, roots_missing, root_mismatch, revocation_mismatch, >>=-eq-ok}
use lumengate.Crypto.Field.{fr_modulus}
use lumengate.Crypto.Field.Numeral.{is_empty}
use lumengate.Passport.Numbers.{to_big_int}
use lumengate.Issuer.Fields.{accumulate, RevocationWitness, compute_revocation_witness}
use lumengate.Issuer.Circuit.{PublicInputs, PrivateInputs, as_u32, equals?, climb, is_eligible}
use lumengate.Issuer.Prover.{
  PolicyKey, policy_overrides, to_lower_case, normalize_hex_32, Material, ChainRoots, IssuedInputs,
  Draw, require, build_credential_material, build_prover_inputs,
}
use lumengate.Issuer.Texts.{IsHex32, normalize_hex_32-inj, to_lower_case-inj, climb-zeros}
use lumengate.Issuer.Made.{
  require-eq-ok, IsRoot, leaf_of, IsMaterial, IsWitness, build_credential_material-IsMaterial,
  compute_revocation_witness-IsWitness, policy_overrides-fits,
}
use lumengate.Issuer.Handed.{IsReadAs, public_of, private_of, issued-IsReadAs}

module _ (sha_256 : List ℕ → List ℕ) (poseidon2_hash : List ℤ → ℕ)
    (bounded : (xs : List ℤ) → poseidon2_hash xs < fr_modulus) where
  eqb_refl : (x : ℤ) → eqb_ℤ x x ≡ true
  eqb_refl x = ground arith

  nonzero : (x : ℤ) → x ≢ pos 0 → eqb_ℤ x (pos 0) ≡ false
  nonzero x other = ground arith

  -- The commitment of a material, and that it is not zero where its text is not.
  leaf_nonzero :
      (issuer_text : List ℕ) (m : Material) (issuer salt : ℤ)
      → IsMaterial sha_256 poseidon2_hash bounded issuer_text m issuer salt
      → to_big_int m.commitment ≢ ok (pos 0)
      → leaf_of sha_256 poseidon2_hash bounded issuer salt ≢ pos 0
  leaf_nonzero issuer_text m issuer salt material other is_zero = other (material.0 ∙ ap ok is_zero)

  root_of :
      (issuer_text : List ℕ) (m : Material) (issuer salt : ℤ)
      → IsMaterial sha_256 poseidon2_hash bounded issuer_text m issuer salt
      → IsRoot sha_256 poseidon2_hash bounded m.root (
          accumulate poseidon2_hash
            (leaf_of sha_256 poseidon2_hash bounded issuer salt)
            (replicate 8 (pos 0)))
  root_of issuer_text m issuer salt (_, _, _, _, _, _, _, is_root) = is_root

  revocation_of :
      (w : RevocationWitness) (xs : List ℤ)
      → IsWitness sha_256 poseidon2_hash bounded w xs
      → IsRoot sha_256 poseidon2_hash bounded w.root (accumulate poseidon2_hash (pos 0) xs)
  revocation_of w xs (_, _, _, is_root) = is_root

  both : {a b : Bool} → a ≡ true → b ≡ true → (a && b) ≡ true
  both h k = rw h k

  -- The assertions of the circuit.
  private_of-is_eligible :
      (draw : Draw) (lo hi id : ℕ) (issuer salt asset action : ℤ) (xs : List ℤ)
      → pos (poseidon2_hash (pos draw.note_secret ∷ pos draw.note_blinding ∷ [])) ≢ pos 0
      → leaf_of sha_256 poseidon2_hash bounded issuer salt ≢ pos 0
      → lo ≤ 840
      → 840 ≤ hi
      → hi < 1000
      → length xs ≡ 8
      → 1199188800 ≤ draw.current_time
      → draw.current_time < 2 ^ 64
      → is_eligible poseidon2_hash
          (public_of sha_256 poseidon2_hash bounded
            (accumulate poseidon2_hash
              (leaf_of sha_256 poseidon2_hash bounded issuer salt)
              (replicate 8 (pos 0)))
            (accumulate poseidon2_hash (pos 0) xs)
            id
            asset
            action
            (pos draw.note_secret))
          (private_of sha_256 poseidon2_hash bounded draw lo hi issuer salt xs)
        ≡ true
  unfolding is_eligible
  private_of-is_eligible draw lo hi id issuer salt asset action xs noted committed below above small
        long adult fits =
      let notes : eqb_ℤ (pos (poseidon2_hash (pos draw.note_secret ∷ pos draw.note_blinding ∷ [])))
            (pos 0)
          ≡ false =
        nonzero _ noted in
      let from : leb (as_u32 (pos lo)) (as_u32 (pos 840)) ≡ true =
        le→leb (as_u32 (pos lo)) (as_u32 (pos 840)) (omega arith) in
      let to : leb (as_u32 (pos 840)) (as_u32 (pos hi)) ≡ true =
        le→leb (as_u32 (pos 840)) (as_u32 (pos hi)) (omega arith) in
      let age : leb 1199188800 (draw.current_time % 2 ^ 64) ≡ true =
        le→leb 1199188800 (draw.current_time % 2 ^ 64) (omega arith) in
      let root =
        accumulate poseidon2_hash (leaf_of sha_256 poseidon2_hash bounded issuer salt)
          (replicate 8 (pos 0)) in
      let revocation = accumulate poseidon2_hash (pos 0) xs in
      let path : equals?
            (climb poseidon2_hash (leaf_of sha_256 poseidon2_hash bounded issuer salt)
              (replicate 8 (pos 0)) (replicate 8 (pos 0)))
            root
          ≡ true =
        ap (λ o. equals? o root)
          (climb-zeros poseidon2_hash 8 (leaf_of sha_256 poseidon2_hash bounded issuer salt)
            (replicate 8 (pos 0)) refl)
        ∙ eqb_refl root in
      let revoked : equals? (climb poseidon2_hash (pos 0) xs (replicate 8 (pos 0))) revocation
          ≡ true =
        ap (λ o. equals? o revocation) (climb-zeros poseidon2_hash 8 (pos 0) xs long)
        ∙ eqb_refl revocation in
      let leaf : eqb_ℤ (leaf_of sha_256 poseidon2_hash bounded issuer salt) (pos 0) ≡ false =
        nonzero _ committed in
      let nullifier =
        eqb_refl (pos (poseidon2_hash (pos draw.note_secret ∷ pos id ∷ asset ∷ action ∷ []))) in
      both (ap not notes)
        (both from (both to (both age (both path (both revoked (both (ap not leaf) nullifier))))))

  -- The inputs that buildProverInputs returns, read as numbers, satisfy every assertion of the
  -- eligibility circuit, with the two roots that the chain stored, for each policy, wallet and
  -- scope, and whatever commitments are revoked, the credential's own among them: where the
  -- chain's roots are printed as 64 digits in lower case, the time is at least 18 years after
  -- the credential's date of birth and below 2^64, the hash has values in [0, r), and neither
  -- the note's commitment nor the credential's is zero.
  pub build_prover_inputs-is_eligible :
      (wallet_field issuer_id : List ℕ) (roots : ChainRoots) (revoked : List (List ℕ))
      (key : PolicyKey) (asset_id action_id : List ℕ) (draw : Draw) (inputs : IssuedInputs)
      → IsHex32 roots.root
      → IsHex32 roots.revocation_root
      → 1199188800 ≤ draw.current_time
      → draw.current_time < 2 ^ 64
      → pos (poseidon2_hash (pos draw.note_secret ∷ pos draw.note_blinding ∷ [])) ≢ pos 0
      → ((m : Material)
          → build_credential_material sha_256 poseidon2_hash wallet_field issuer_id ≡ ok m
          → to_big_int m.commitment ≢ ok (pos 0))
      → build_prover_inputs sha_256 poseidon2_hash wallet_field issuer_id roots revoked key asset_id
          action_id draw
        ≡ ok inputs
      → (q : PublicInputs) × (p : PrivateInputs) × IsReadAs inputs q p
        × (to_big_int roots.root ≡ ok q.root)
        × (to_big_int roots.revocation_root ≡ ok q.revocation_root)
        × (is_eligible poseidon2_hash q p ≡ true)
  unfolding build_prover_inputs
  build_prover_inputs-is_eligible wallet_field issuer_id roots revoked key asset_id action_id draw
        inputs hex hex' adult fits noted committed h =
      let (m, built, h1) =
        >>=-eq-ok (build_credential_material sha_256 poseidon2_hash wallet_field issuer_id) _ h in
      let (there, h2, h3) =
        >>=-eq-ok
          (require (not (is_empty roots.root || is_empty roots.revocation_root)) roots_missing) _
          h1 in
      let (matches, same, h4) =
        >>=-eq-ok
          (require (same_list (normalize_hex_32 roots.root) (normalize_hex_32 m.root))
            root_mismatch)
          _ h3 in
      let (w, witnessed, h5) = >>=-eq-ok (compute_revocation_witness poseidon2_hash revoked) _ h4 in
      let (current, same', last) =
        >>=-eq-ok
          (require (same_list (to_lower_case w.root) (to_lower_case roots.revocation_root))
            revocation_mismatch)
          _ h5 in
      let (issuer, salt, material) =
        build_credential_material-IsMaterial sha_256 poseidon2_hash bounded wallet_field issuer_id m
          built in
      let (xs, witness) =
        compute_revocation_witness-IsWitness sha_256 poseidon2_hash bounded revoked w witnessed in
      let (lo, hi, id, is_lo, is_hi, is_id, below, above, small) = policy_overrides-fits key in
      let root_is =
        normalize_hex_32-inj roots.root m.root hex (root_of issuer_id m issuer salt material).0
          (same_list→eq _ _ (require-eq-ok _ root_mismatch same)) in
      let revocation_is =
        to_lower_case-inj w.root roots.revocation_root (revocation_of w xs witness).0 hex'
          (same_list→eq _ _ (require-eq-ok _ revocation_mismatch same')) in
      let at_root = ap to_big_int root_is ∙ (root_of issuer_id m issuer salt material).1 in
      let at_revocation = ap to_big_int (sym revocation_is) ∙ (revocation_of w xs witness).1 in
      let (asset, action, read) =
        issued-IsReadAs sha_256 poseidon2_hash bounded m w roots (policy_overrides key) asset_id
          action_id draw inputs issuer_id issuer salt _ _ xs lo hi id material witness at_root
          at_revocation is_lo is_hi is_id last in
      (
        _,
        _,
        read,
        at_root,
        at_revocation,
        private_of-is_eligible draw lo hi id issuer salt asset action xs noted
            (leaf_nonzero issuer_id m issuer salt material (committed m built)) below above small
            witness.0 adult fits,
      )
