-- ===== src/Issuer/Handed.antt =====
-- What the issuer hands out, as the prover reads it.
use lumengate.Prelude.{ℕ, ◌<◌, ◌≡◌, refl, sym, ap, ◌∙◌, true, List, [], ◌∷◌, replicate, ℤ, pos}
use lumengate.Prelude.Result.{ok, >>=-eq-ok, ok_inj}
use mathlib.Core.Path.{subst}
use lumengate.Crypto.Field.{fr_modulus}
use lumengate.Product.Amount.{to_string}
use lumengate.Passport.Numbers.{to_big_int}
use lumengate.Passport.Nullifier.{to_big_int-to_string}
use lumengate.Chain.IssuerRows.{big_text}
use lumengate.Issuer.Fields.{read_all, compute_nullifier, RevocationWitness}
use lumengate.Issuer.Circuit.{PublicInputs, PrivateInputs}
use lumengate.Issuer.Prover.{
  Policy, Material, ChainRoots, IssuedInputs, Draw, field_hex_to_decimal, issued,
}
use lumengate.Issuer.Texts.{
  to_big_int-big_text, read_all-texts_of, to_big_int-field_to_bytes_32_hex,
}
use lumengate.Issuer.Made.{IsMaterial, IsWitness}

-- The fields that the prover reads the texts as.
pub record IsReadAs (inputs : IssuedInputs) (q : PublicInputs) (p : PrivateInputs) : Type 0 where
  pub root : to_big_int inputs.root ≡ ok q.root
  pub revocation_root : to_big_int inputs.revocation_root ≡ ok q.revocation_root
  pub policy_id : to_big_int inputs.policy_id ≡ ok q.policy_id
  pub asset_id : to_big_int inputs.asset_id ≡ ok q.asset_id
  pub action_id : to_big_int inputs.action_id ≡ ok q.action_id
  pub nullifier : to_big_int inputs.nullifier ≡ ok q.nullifier
  pub note_secret : to_big_int inputs.note_secret ≡ ok p.note_secret
  pub note_blinding : to_big_int inputs.note_blinding ≡ ok p.note_blinding
  pub accredited : inputs.accredited ≡ p.accredited
  pub jurisdiction_code : to_big_int inputs.jurisdiction_code ≡ ok p.jurisdiction_code
  pub dob_timestamp : to_big_int inputs.dob_timestamp ≡ ok p.dob_timestamp
  pub sanctions_clear : inputs.sanctions_clear ≡ p.sanctions_clear
  pub issuer_id : to_big_int inputs.issuer_id ≡ ok p.issuer_id
  pub salt : to_big_int inputs.salt ≡ ok p.salt
  pub current_time : to_big_int inputs.current_time ≡ ok p.current_time
  pub min_jurisdiction : to_big_int inputs.min_jurisdiction ≡ ok p.min_jurisdiction
  pub max_jurisdiction : to_big_int inputs.max_jurisdiction ≡ ok p.max_jurisdiction
  pub path_siblings : read_all inputs.path_siblings ≡ ok p.path_siblings
  pub path_bits : read_all inputs.path_bits ≡ ok p.path_bits
  pub rev_path_siblings : read_all inputs.rev_path_siblings ≡ ok p.rev_path_siblings
  pub rev_path_bits : read_all inputs.rev_path_bits ≡ ok p.rev_path_bits

zeros_read : read_all (replicate 8 (b'0' ∷ [])) ≡ ok (replicate 8 (pos 0))
unfolding read_all to_big_int
zeros_read = refl

module _ (sha_256 : List ℕ → List ℕ) (poseidon2_hash : List ℤ → ℕ)
    (bounded : (xs : List ℤ) → poseidon2_hash xs < fr_modulus) where
  decimal-read :
      (t u : List ℕ) (x : ℤ)
      → to_big_int t ≡ ok x
      → field_hex_to_decimal t ≡ ok u
      → to_big_int u ≡ ok x
  unfolding field_hex_to_decimal
  decimal-read t u x read h =
      let e : ok (big_text x) ≡ ok u = rw read at h in
      ap to_big_int (sym (ok_inj e)) ∙ to_big_int-big_text x

  number-read : (t : List ℕ) (n : ℕ) → t ≡ to_string n → to_big_int t ≡ ok (pos n)
  number-read t n e = ap to_big_int e ∙ to_big_int-to_string n

  nullifier-read :
      (secret : ℕ) (policy_id asset_id action_id : List ℕ) (id : ℕ) (nullifier : List ℕ)
      → policy_id ≡ to_string id
      → compute_nullifier poseidon2_hash (to_string secret) policy_id asset_id action_id
        ≡ ok nullifier
      → (asset : ℤ) × (action : ℤ) × (to_big_int asset_id ≡ ok asset)
        × (to_big_int action_id ≡ ok action)
        × (to_big_int nullifier
            ≡ ok (pos (poseidon2_hash (pos secret ∷ pos id ∷ asset ∷ action ∷ []))))
  unfolding compute_nullifier
  nullifier-read secret policy_id asset_id action_id id nullifier is_id h =
      let h' = rw (number-read policy_id id is_id) at (rw (to_big_int-to_string secret) at h) in
      let (asset, read_asset, h1) = >>=-eq-ok (to_big_int asset_id) _ h' in
      let (action, read_action, last) = >>=-eq-ok (to_big_int action_id) _ h1 in
      (
        asset,
        action,
        read_asset,
        read_action,
        ap to_big_int (sym (ok_inj last)) ∙ to_big_int-field_to_bytes_32_hex _ (bounded _),
      )

  abbrev pub public_of : ℤ → ℤ → ℕ → ℤ → ℤ → ℤ → PublicInputs
  public_of root revocation_root id asset action secret = record {
    root = root;
    revocation_root = revocation_root;
    policy_id = pos id;
    asset_id = asset;
    action_id = action;
    nullifier = pos (poseidon2_hash (secret ∷ pos id ∷ asset ∷ action ∷ []));
  }

  abbrev pub private_of : Draw → ℕ → ℕ → ℤ → ℤ → List ℤ → PrivateInputs
  private_of draw lo hi issuer salt xs = record {
    note_secret = pos draw.note_secret;
    note_blinding = pos draw.note_blinding;
    accredited = true;
    jurisdiction_code = pos 840;
    dob_timestamp = pos 631152000;
    sanctions_clear = true;
    issuer_id = issuer;
    salt = salt;
    current_time = pos draw.current_time;
    min_jurisdiction = pos lo;
    max_jurisdiction = pos hi;
    path_siblings = replicate 8 (pos 0);
    path_bits = replicate 8 (pos 0);
    rev_path_siblings = xs;
    rev_path_bits = replicate 8 (pos 0);
  }

  pub issued-IsReadAs :
      (m : Material) (w : RevocationWitness) (roots : ChainRoots) (policy : Policy)
      (asset_id action_id : List ℕ) (draw : Draw) (inputs : IssuedInputs) (issuer_text : List ℕ)
      (issuer salt root revocation_root : ℤ) (xs : List ℤ) (lo hi id : ℕ)
      → IsMaterial sha_256 poseidon2_hash bounded issuer_text m issuer salt
      → IsWitness sha_256 poseidon2_hash bounded w xs
      → to_big_int roots.root ≡ ok root
      → to_big_int roots.revocation_root ≡ ok revocation_root
      → policy.min_jurisdiction ≡ to_string lo
      → policy.max_jurisdiction ≡ to_string hi
      → policy.policy_id ≡ to_string id
      → issued sha_256 poseidon2_hash m w roots policy asset_id action_id draw ≡ ok inputs
      → (asset : ℤ) × (action : ℤ) × IsReadAs inputs
          (public_of root revocation_root id asset action (pos draw.note_secret))
          (private_of draw lo hi issuer salt xs)
  unfolding issued compute_nullifier
  issued-IsReadAs m w roots policy asset_id action_id draw inputs issuer_text issuer salt root
        revocation_root xs lo hi id
        (is_commitment, read_issuer, read_salt, code, dob, siblings, bits, is_root)
        (long, rev_siblings, rev_bits, is_rev) at_root at_revocation is_lo is_hi is_id h =
      let (nullifier, made, h1) =
        >>=-eq-ok
          (compute_nullifier poseidon2_hash (to_string draw.note_secret) policy.policy_id asset_id
            action_id)
          _ h in
      let (root', read_root, h2) = >>=-eq-ok (field_hex_to_decimal roots.root) _ h1 in
      let (revocation_root', read_revocation, h3) =
        >>=-eq-ok (field_hex_to_decimal roots.revocation_root) _ h2 in
      let (decimal, read_nullifier, last) = >>=-eq-ok (field_hex_to_decimal nullifier) _ h3 in
      let (asset, action, has_asset, has_action, is_hash) =
        nullifier-read draw.note_secret policy.policy_id asset_id action_id id nullifier is_id
          made in
      (
        asset,
        action,
        subst
            (λ i.
              IsReadAs i (public_of root revocation_root id asset action (pos draw.note_secret))
                (private_of draw lo hi issuer salt xs))
            (ok_inj last)
            (record {
              root = decimal-read roots.root root' root at_root read_root;
              revocation_root =
                  decimal-read roots.revocation_root revocation_root' revocation_root at_revocation
                    read_revocation;
              policy_id = number-read policy.policy_id id is_id;
              asset_id = has_asset;
              action_id = has_action;
              nullifier = decimal-read nullifier decimal _ is_hash read_nullifier;
              note_secret = to_big_int-to_string draw.note_secret;
              note_blinding = to_big_int-to_string draw.note_blinding;
              accredited = refl;
              jurisdiction_code = number-read m.jurisdiction_code 840 code;
              dob_timestamp = number-read m.dob_timestamp 631152000 dob;
              sanctions_clear = refl;
              issuer_id = read_issuer;
              salt = read_salt;
              current_time = to_big_int-to_string draw.current_time;
              min_jurisdiction = number-read policy.min_jurisdiction lo is_lo;
              max_jurisdiction = number-read policy.max_jurisdiction hi is_hi;
              path_siblings = ap read_all siblings ∙ zeros_read;
              path_bits = ap read_all bits ∙ zeros_read;
              rev_path_siblings = ap read_all rev_siblings ∙ read_all-texts_of xs;
              rev_path_bits = ap read_all rev_bits ∙ zeros_read;
            }),
      )
