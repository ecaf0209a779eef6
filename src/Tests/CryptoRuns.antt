-- ===== src/Tests/CryptoRuns.antt =====
-- The field, the encodings and the curve at concrete values.
use lumengate.Prelude.{ℕ, ◌-◌, ◌≡◌, refl, ◌≢◌, some, List, [], ◌∷◌, ◌++◌, arith, replicate, pos}
use lumengate.Prelude.Result.{ok}
use lumengate.Crypto.Field.{
  fr_modulus, fr_add, to_bytes_32_be, from_bytes_be, fill_be, random_scalar, read_be,
}
use lumengate.Crypto.Field.{bytes_to_hex}
use lumengate.Crypto.Field.Hex.{hex_to_bytes, hex_to_bytes-bytes_to_hex}
use lumengate.Crypto.Field.Bytes.{Encodes, from_bytes_be-to_bytes_32_be}
use lumengate.Crypto.Grumpkin.{commit}
use lumengate.Crypto.Grumpkin.Toy.{toy, toy_laws, reduce}
use lumengate.Crypto.Grumpkin.Bytes.{RoundTrip, point_from_bytes-point_to_bytes}
use lumengate.Crypto.Grumpkin.Laws.{commit_wrap}

abbrev bytes_258 : List ℕ
bytes_258 = replicate 30 0 ++ 1 ∷ 2 ∷ []

encoded_258 : to_bytes_32_be (pos 258) ≡ ok bytes_258
unfolding to_bytes_32_be fill_be
encoded_258 = refl

from_bytes_be-to_bytes_32_be_example : Encodes bytes_258 (pos 258)
from_bytes_be-to_bytes_32_be_example = from_bytes_be-to_bytes_32_be (pos 258) bytes_258 encoded_258

-- The first draw is zero, so the second is taken.
abbrev draws : List (List ℕ)
draws = replicate 32 0 ∷ bytes_258 ∷ []

draws_give : random_scalar draws ≡ some (pos 258)
unfolding random_scalar from_bytes_be read_be
draws_give = refl

point_from_bytes-point_to_bytes_example : RoundTrip toy_laws (reduce 5)
point_from_bytes-point_to_bytes_example = point_from_bytes-point_to_bytes toy_laws (reduce 5)

commit_wrap_example :
    commit (pos 3) (fr_add (pos (fr_modulus - 2)) (pos 5))
    ≢ toy.add (commit (pos 1) (pos (fr_modulus - 2))) (commit (pos 2) (pos 5))
commit_wrap_example =
    commit_wrap toy_laws 1 2 (fr_modulus - 2) 5 (omega arith) (omega arith) (omega arith)

hex_to_bytes-bytes_to_hex_example :
    hex_to_bytes (bytes_to_hex (0 ∷ 10 ∷ 255 ∷ [])) ≡ ok (0 ∷ 10 ∷ 255 ∷ [])
hex_to_bytes-bytes_to_hex_example =
    hex_to_bytes-bytes_to_hex (0 ∷ 10 ∷ 255 ∷ []) (omega arith, (omega arith, (omega arith, tt)))
