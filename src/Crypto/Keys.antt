-- ===== src/Crypto/Keys.antt =====
-- crypto/keys.ts and crypto/address.ts.
pub mod RoundTrip
use lumengate.Prelude.{ℕ, not, List, [], ◌∷◌, ◌==◌, if◌then◌else◌, length, take, drop, ℤ}
use lumengate.Prelude.Result.{Result, ok, err, ◌>>=◌, bad_strkey_length}
use lumengate.Crypto.Poseidon.{Poseidon}
use lumengate.Crypto.Domain
use lumengate.Crypto.Field.{from_bytes_le, to_hex_32}
use lumengate.Passport.Numbers.{to_big_int}
use lumengate.Crypto.Poseidon.{vk_from_sk, poseidon_with_domain}
use lumengate.Crypto.Grumpkin.{Curve, scalar_mul}

pub record KeyPair (Point : Type 0) : Type 0 where
  pub sk : ℤ
  pub vk : ℤ
  pub y : Point
  pub pvk : Point
  pub addr_f : ℤ

module _ {Point : Type 0} ⦃P : Poseidon⦄ ⦃C : Curve Point⦄ where
  unfoldable pub derive_keys : ℤ → ℤ → KeyPair Point
  derive_keys sk addr_f =
      let vk = vk_from_sk sk addr_f in
      record { sk = sk; vk = vk; y = scalar_mul sk C.h; pvk = scalar_mul vk C.h; addr_f = addr_f }

  -- `generateKeys`, from the scalar that `randomScalar` returns.
  unfoldable pub generate_keys : ℤ → ℤ → KeyPair Point
  unfolding derive_keys
  generate_keys fresh addr_f = derive_keys fresh addr_f

-- `SerializedKeyPair`.
pub record SerializedKeyPair : Type 0 where
  pub sk : List ℕ
  pub addr_f : List ℕ

unfoldable pub serialize_keys : {Point : Type 0} → KeyPair Point → SerializedKeyPair
unfolding to_hex_32
serialize_keys keys = record { sk = to_hex_32 keys.sk; addr_f = to_hex_32 keys.addr_f }

module _ {Point : Type 0} ⦃P : Poseidon⦄ ⦃C : Curve Point⦄ where
  unfoldable pub deserialize_keys : SerializedKeyPair → Result (KeyPair Point)
  unfolding derive_keys to_big_int
  deserialize_keys stored = do
    sk ← to_big_int stored.sk
    addr_f ← to_big_int stored.addr_f
    ok (derive_keys sk addr_f)

module _ ⦃P : Poseidon⦄ where
  -- The strkey as the bytes of its text, in two limbs of 28.
  unfoldable pub address_to_field : List ℕ → Result ℤ
  address_to_field ascii =
      if not (length ascii == 56)
      then err bad_strkey_length
      else let lo = from_bytes_le (take 28 ascii) in
        let hi = from_bytes_le (take 28 (drop 28 ascii)) in
        ok (poseidon_with_domain Domain.address (lo ∷ hi ∷ []))
