-- ===== src/Issuer/Fields.antt =====
-- issuer-service/lib/poseidonFields.js and scripts/compute_revocation_root.js. `poseidon2Hash` of
-- @zkpassport/poseidon2 is a parameter.
use lumengate.Prelude.{
  ℕ, ◌-◌, List, [], ◌∷◌, ◌++◌, ltb, if◌then◌else◌, length, replicate, take, drop, pos_part, ℤ, pos,
}
use lumengate.Prelude.Result.{Result, ok, ◌>>=◌}
use lumengate.Crypto.Field.{to_string_16, pad_start}
use lumengate.Crypto.Field.Hex.{without_prefix}
use lumengate.Passport.Numbers.{to_big_int}
use lumengate.Chain.IssuerRows.{big_text}

-- Of a hash or of zero, and so not negative: the last 64 digits.
unfoldable pub field_to_bytes_32_hex : ℤ → List ℕ
field_to_bytes_32_hex value =
    let h = to_string_16 (pos_part value) in
    b'0' ∷ b'x' ∷ pad_start 64 b'0' (if ltb 64 (length h) then drop (length h - 64) h else h)

unfoldable pub read_all : List (List ℕ) → Result (List ℤ)
unfolding to_big_int
read_all [] = ok []
read_all (text ∷ texts) = do x ← to_big_int text; rest ← read_all texts; ok (x ∷ rest)

-- The first eight, and zeros up to eight.
abbrev pub first_eight : List ℤ → List ℤ
first_eight xs = take 8 (xs ++ replicate (8 - length xs) (pos 0))

-- `hexToBigInt`; no digits are zero.
unfoldable pub hex_to_big_int : List ℕ → Result ℤ
unfolding to_big_int without_prefix
hex_to_big_int hex = elim (without_prefix hex) [
  | [] ↦ ok (pos 0)
  | c ∷ s ↦ to_big_int (b'0' ∷ b'x' ∷ c ∷ s)
]

unfoldable pub hex_all : List (List ℕ) → Result (List ℤ)
unfolding hex_to_big_int
hex_all [] = ok []
hex_all (text ∷ texts) = do x ← hex_to_big_int text; rest ← hex_all texts; ok (x ∷ rest)

unfoldable pub texts_of : List ℤ → List (List ℕ)
texts_of [] = []
texts_of (x ∷ xs) = big_text x ∷ texts_of xs

pub record RevocationWitness : Type 0 where
  pub root : List ℕ
  pub rev_path_siblings : List (List ℕ)
  pub rev_path_bits : List (List ℕ)

module _ (poseidon2_hash : List ℤ → ℕ) where
  abbrev pub hash_2_fields : ℤ → ℤ → ℤ
  hash_2_fields a b = pos (poseidon2_hash (a ∷ b ∷ []))

  abbrev pub hash_3_fields : ℤ → ℤ → ℤ → ℤ
  hash_3_fields a b c = pos (poseidon2_hash (a ∷ b ∷ c ∷ []))

  unfoldable pub compute_nullifier : List ℕ → List ℕ → List ℕ → List ℕ → Result (List ℕ)
  unfolding to_big_int field_to_bytes_32_hex
  compute_nullifier note_secret policy_id asset_id action_id = do
    secret ← to_big_int note_secret
    policy ← to_big_int policy_id
    asset ← to_big_int asset_id
    action ← to_big_int action_id
    ok (field_to_bytes_32_hex (pos (poseidon2_hash (secret ∷ policy ∷ asset ∷ action ∷ []))))

  unfoldable pub compute_note_commitment : List ℕ → List ℕ → Result (List ℕ)
  unfolding to_big_int field_to_bytes_32_hex
  compute_note_commitment note_secret note_blinding = do
    secret ← to_big_int note_secret
    blinding ← to_big_int note_blinding
    ok (field_to_bytes_32_hex (hash_2_fields secret blinding))

  -- acc = hash2(acc, x), over the list.
  unfoldable pub accumulate : ℤ → List ℤ → ℤ
  accumulate acc [] = acc
  accumulate acc (x ∷ xs) = accumulate (hash_2_fields acc x) xs

  unfoldable pub compute_note_root_from_leaves : List (List ℕ) → Result (List ℕ)
  unfolding read_all accumulate field_to_bytes_32_hex
  compute_note_root_from_leaves leaves = do
    xs ← read_all leaves
    ok (field_to_bytes_32_hex (accumulate (pos 0) (first_eight xs)))

  unfoldable pub compute_revocation_root_from_siblings : List ℤ → List ℕ
  unfolding accumulate field_to_bytes_32_hex
  compute_revocation_root_from_siblings siblings =
      field_to_bytes_32_hex (accumulate (pos 0) (first_eight siblings))

  -- Of no commitments this is the root of eight zeros, `EMPTY_REVOCATION_ROOT`.
  unfoldable pub compute_revocation_witness : List (List ℕ) → Result RevocationWitness
  unfolding hex_all compute_revocation_root_from_siblings texts_of
  compute_revocation_witness revoked = do
    values ← hex_all (take 8 revoked)
    let siblings = first_eight values
    ok (record {
      root = compute_revocation_root_from_siblings siblings;
      rev_path_siblings = texts_of siblings;
      rev_path_bits = replicate 8 (b'0' ∷ []);
    })
