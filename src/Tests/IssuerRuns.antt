-- ===== src/Tests/IssuerRuns.antt =====
-- The issuer over a hash that is always 7, with one commitment revoked, and with eight notes kept.
use lumengate.Prelude.{
  ℕ, ◌≡◌, refl, sym, ◌∙◌, ◌≢◌, true, List, [], ◌∷◌, ◌++◌, arith, replicate, ℤ, pos,
}
use lumengate.Prelude.Result.{ok}
use lumengate.Crypto.Field.Hex.{without_prefix, digit_value}
use lumengate.Crypto.Field.{digits_16}
use lumengate.Product.Amount.{to_string, digits_10}
use lumengate.Passport.Numbers.{to_big_int}
use lumengate.Issuer.Fields.{
  field_to_bytes_32_hex, read_all, accumulate, compute_note_root_from_leaves,
}
use lumengate.Issuer.Circuit.{PublicInputs, PrivateInputs, is_eligible}
use lumengate.Issuer.Notes.{
  Appended, append_note_commitment, includes_row, append_note_commitment-full,
}
use lumengate.Issuer.Prover.{
  us_jurisdiction, Material, ChainRoots, IssuedInputs, Draw, build_credential_material,
  build_prover_inputs,
}
use lumengate.Issuer.Made.{build_credential_material-IsMaterial}
use lumengate.Issuer.Texts.{field_to_bytes_32_hex-IsHex32}
use lumengate.Issuer.Handed.{IsReadAs}
use lumengate.Issuer.Provable.{build_prover_inputs-is_eligible}

abbrev seven : List ℤ → ℕ
seven xs = 7

abbrev digest : List ℕ → List ℕ
digest s = replicate 61 b'0' ++ b'5' ∷ b'0' ∷ b'0' ∷ []

abbrev root_7 : List ℕ
root_7 = field_to_bytes_32_hex (pos 7)

abbrev roots : ChainRoots
roots = record { root = root_7; revocation_root = root_7 }

abbrev draw : Draw
draw = record { note_secret = 11; note_blinding = 13; current_time = 1700000000 }

abbrev zeros : List (List ℕ)
zeros = replicate 8 (b'0' ∷ [])

abbrev handed : IssuedInputs
handed = record {
  accredited = true;
  sanctions_clear = true;
  jurisdiction_code = to_string 840;
  dob_timestamp = to_string 631152000;
  issuer_id = b'2' ∷ [];
  salt = b'5' ∷ [];
  note_secret = to_string 11;
  note_blinding = to_string 13;
  current_time = to_string 1700000000;
  min_jurisdiction = to_string 840;
  max_jurisdiction = to_string 840;
  policy_id = to_string 1;
  asset_id = b'3' ∷ [];
  action_id = b'1' ∷ [];
  root = b'7' ∷ [];
  revocation_root = b'7' ∷ [];
  nullifier = b'7' ∷ [];
  path_siblings = zeros;
  path_bits = zeros;
  rev_path_siblings = (b'7' ∷ []) ∷ replicate 7 (b'0' ∷ []);
  rev_path_bits = zeros;
}

-- The revoked commitment is the one of the credential.
handed_out :
    build_prover_inputs digest seven
      (b'4' ∷ b'2' ∷ [])
      (b'2' ∷ [])
      roots
      (root_7 ∷ [])
      us_jurisdiction
      (b'3' ∷ [])
      (b'1' ∷ [])
      draw
    ≡ ok handed
unfolding build_prover_inputs to_big_int field_to_bytes_32_hex digits_10 digit_value digits_16
handed_out = refl

seven_commitment :
    (m : Material)
    → build_credential_material digest seven (b'4' ∷ b'2' ∷ []) (b'2' ∷ []) ≡ ok m
    → to_big_int m.commitment ≢ ok (pos 0)
seven_commitment m h is_zero =
    let (issuer, salt, material) =
      build_credential_material-IsMaterial digest seven (λ xs. omega arith) (b'4' ∷ b'2' ∷ [])
        (b'2' ∷ []) m h in
    let e : ok (pos 7) ≡ ok (pos 0) = sym material.0 ∙ is_zero in ground arith

build_prover_inputs-is_eligible_example :
    (q : PublicInputs) × (p : PrivateInputs) × IsReadAs handed q p
    × (to_big_int root_7 ≡ ok q.root)
    × (to_big_int root_7 ≡ ok q.revocation_root)
    × (is_eligible seven q p ≡ true)
build_prover_inputs-is_eligible_example =
    build_prover_inputs-is_eligible digest seven (λ xs. omega arith) (b'4' ∷ b'2' ∷ []) (b'2' ∷ [])
      roots (root_7 ∷ []) us_jurisdiction (b'3' ∷ []) (b'1' ∷ []) draw handed
      (field_to_bytes_32_hex-IsHex32 7 (omega arith))
      (field_to_bytes_32_hex-IsHex32 7 (omega arith)) (omega arith) (omega arith)
      (λ e. ground (arith, e)) seven_commitment handed_out

abbrev eight : List (List ℕ)
eight = replicate 8 (b'1' ∷ [])

abbrev appended : Appended
appended = record {
  commitment = root_7;
  note_root = root_7;
  count = 9;
  rows = eight ++ root_7 ∷ [];
}

ninth : append_note_commitment seven eight (b'5' ∷ []) (b'6' ∷ []) ≡ ok appended
unfolding append_note_commitment to_big_int field_to_bytes_32_hex includes_row read_all accumulate
    without_prefix digits_16 digit_value
ninth = refl

append_note_commitment-full_example :
    (includes_row root_7 (eight ++ root_7 ∷ []) ≡ true)
    × (compute_note_root_from_leaves seven eight ≡ ok root_7)
append_note_commitment-full_example =
    append_note_commitment-full seven eight (b'5' ∷ []) (b'6' ∷ []) appended (omega arith) ninth
