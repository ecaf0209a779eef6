-- ===== src/Issuer/Notes.antt =====
-- issuer-service/lib/noteMerkle.js: the notes that the issuer keeps, and their root.
use lumengate.Prelude.{
  ℕ, zero, suc, ◌≤◌, ◌≡◌, refl, sym, ap, ◌∙◌, inl, inr, Bool, true, false, ◌||◌, List, [], ◌∷◌,
  ◌++◌, arith, if◌then◌else◌, Bool-cases, length, take, length-append, same_list, same_list_refl, ℤ,
  pos,
}
use lumengate.Prelude.Result.{Result, ok, ◌>>=◌, >>=-eq-ok, ok_inj}
use mathlib.Core.Path.{subst}
use lumengate.Passport.Numbers.{to_big_int}
use lumengate.Issuer.Fields.{
  field_to_bytes_32_hex, read_all, first_eight, accumulate, compute_note_commitment,
  compute_note_root_from_leaves,
}

-- `rows.includes(commitment)`.
unfoldable pub includes_row : List ℕ → List (List ℕ) → Bool
unfolding same_list
includes_row commitment [] = false
includes_row commitment (row ∷ rows) = same_list row commitment || includes_row commitment rows

-- The answer, and the rows that are kept.
pub record Appended : Type 0 where
  pub commitment : List ℕ
  pub note_root : List ℕ
  pub count : ℕ
  pub rows : List (List ℕ)

abbrev pub with_row : List ℕ → List (List ℕ) → List (List ℕ)
with_row commitment rows = if includes_row commitment rows then rows else rows ++ commitment ∷ []

module _ (poseidon2_hash : List ℤ → ℕ) where
  unfoldable pub append_note_commitment : List (List ℕ) → List ℕ → List ℕ → Result Appended
  unfolding compute_note_commitment compute_note_root_from_leaves includes_row
  append_note_commitment rows note_secret note_blinding = do
    commitment ← compute_note_commitment poseidon2_hash note_secret note_blinding
    note_root ← compute_note_root_from_leaves poseidon2_hash (with_row commitment rows)
    ok (record {
      commitment = commitment;
      note_root = note_root;
      count = length (with_row commitment rows);
      rows = with_row commitment rows;
    })

includes_row-append : (c : List ℕ) (rows : List (List ℕ)) → includes_row c (rows ++ c ∷ []) ≡ true
unfolding includes_row
includes_row-append c [] = rw (same_list_refl c) refl
includes_row-append c (row ∷ rows) = elim (Bool-cases (same_list row c)) [
  | inl y ↦ rw y refl
  | inr n ↦ rw n (includes_row-append c rows)
]

includes_row-with_row :
    (c : List ℕ) (rows : List (List ℕ)) → includes_row c (with_row c rows) ≡ true
includes_row-with_row c rows = elim (Bool-cases (includes_row c rows)) [
  | inl y ↦ rw y y
  | inr n ↦ rw n (includes_row-append c rows)
]

take-first : (n : ℕ) (xs ys : List ℤ) → n ≤ length xs → take n (xs ++ ys) ≡ take n xs
take-first zero xs ys h = refl
take-first (suc n) [] ys h = absurd (omega arith)
take-first (suc n) (x ∷ xs) ys h = ap (λ l. x ∷ l) (take-first n xs ys (omega arith))

length-read_all :
    (texts : List (List ℕ)) (xs : List ℤ) → read_all texts ≡ ok xs → length xs ≡ length texts
unfolding read_all
length-read_all [] xs h = ap length (sym (ok_inj h))
length-read_all (t ∷ texts) xs h =
    let (x, read, h1) = >>=-eq-ok (to_big_int t) _ h in
    let (rest, reads, last) = >>=-eq-ok (read_all texts) _ h1 in
    ap length (sym (ok_inj last)) ∙ ap suc (length-read_all texts rest reads)

-- Rows in front of others are read first.
read_all-prefix :
    (texts more : List (List ℕ)) (ys : List ℤ)
    → read_all (texts ++ more) ≡ ok ys
    → (xs : List ℤ) × (zs : List ℤ) × (read_all texts ≡ ok xs) × (ys ≡ xs ++ zs)
unfolding read_all
read_all-prefix [] more ys h = ([], ys, refl, refl)
read_all-prefix (t ∷ texts) more ys h =
    let (x, read, h1) = >>=-eq-ok (to_big_int t) _ h in
    let (rest, reads, last) = >>=-eq-ok (read_all (texts ++ more)) _ h1 in
    let (xs, zs, first, split) = read_all-prefix texts more rest reads in
    (x ∷ xs, zs, rw read (rw first refl), sym (ok_inj last) ∙ ap (λ l. x ∷ l) split)

first_eight-append : (xs zs : List ℤ) → 8 ≤ length xs → first_eight (xs ++ zs) ≡ first_eight xs
first_eight-append xs zs h =
    let e = length-append xs zs in
    let long : 8 ≤ length (xs ++ zs) = omega (arith, e) in
    take-first 8 (xs ++ zs) _ long ∙ take-first 8 xs zs h ∙ sym (take-first 8 xs _ h)

module _ (poseidon2_hash : List ℤ → ℕ) where
  root-prefix :
      (rows more : List (List ℕ)) (root : List ℕ)
      → 8 ≤ length rows
      → compute_note_root_from_leaves poseidon2_hash (rows ++ more) ≡ ok root
      → compute_note_root_from_leaves poseidon2_hash rows ≡ ok root
  unfolding compute_note_root_from_leaves
  root-prefix rows more root full h =
      let (ys, reads, last) = >>=-eq-ok (read_all (rows ++ more)) _ h in
      let (xs, zs, first, split) = read_all-prefix rows more ys reads in
      let long : 8 ≤ length xs = omega (arith, length-read_all rows xs first) in
      let same : first_eight ys ≡ first_eight xs =
        ap first_eight split ∙ first_eight-append xs zs long in
      rw first (
        ap (λ l. ok (field_to_bytes_32_hex (accumulate poseidon2_hash (pos 0) l))) (sym same)
        ∙ last)

  -- A note that appendNoteCommitment adds to eight or more is kept among the rows, but the note
  -- root that it returns is the one of the rows before: the root covers the first eight notes
  -- only.
  pub append_note_commitment-full :
      (rows : List (List ℕ)) (note_secret note_blinding : List ℕ) (added : Appended)
      → 8 ≤ length rows
      → append_note_commitment poseidon2_hash rows note_secret note_blinding ≡ ok added
      → (includes_row added.commitment added.rows ≡ true)
        × (compute_note_root_from_leaves poseidon2_hash rows ≡ ok added.note_root)
  unfolding append_note_commitment
  append_note_commitment-full rows note_secret note_blinding added full h =
      let (commitment, made, h1) =
        >>=-eq-ok (compute_note_commitment poseidon2_hash note_secret note_blinding) _ h in
      let (root, rooted, last) =
        >>=-eq-ok (compute_note_root_from_leaves poseidon2_hash (with_row commitment rows)) _ h1 in
      subst
        (λ a.
          (includes_row a.commitment a.rows ≡ true)
          × (compute_note_root_from_leaves poseidon2_hash rows ≡ ok a.note_root))
        (ok_inj last) (includes_row-with_row commitment rows, unchanged commitment root rooted)
    where
      unchanged :
          (c r : List ℕ)
          → compute_note_root_from_leaves poseidon2_hash (with_row c rows) ≡ ok r
          → compute_note_root_from_leaves poseidon2_hash rows ≡ ok r
      unchanged c r e = elim (Bool-cases (includes_row c rows)) [
        | inl y ↦ rw y at e
        | inr n ↦ root-prefix rows (c ∷ []) r full (rw n at e)
      ]
