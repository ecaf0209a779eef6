-- ===== src/Crypto/Keys/RoundTrip.antt =====
-- Keys in their stored form and back.
use lumengate.Prelude.{◌≡◌, refl, ap, ◌∙◌, ℤ}
use lumengate.Prelude.Result.{ok}
use lumengate.Crypto.Field.{IsCanonical}
use lumengate.Crypto.Field.Reduce.{fr_mod_of_IsCanonical}
use lumengate.Crypto.Poseidon.{Poseidon}
use lumengate.Crypto.Grumpkin.{Curve}
use lumengate.Passport.Numbers.Hex.{to_big_int-to_hex_32}
use lumengate.Crypto.Keys.{derive_keys, serialize_keys, deserialize_keys}

module _ {Point : Type 0} ⦃P : Poseidon⦄ ⦃C : Curve Point⦄ where
  -- Keys that were derived from a secret and an address in [0, r) are derived again, all of
  -- them, from their stored form.
  pub deserialize_keys-serialize_keys :
      (sk addr_f : ℤ)
      → IsCanonical sk
      → IsCanonical addr_f
      → deserialize_keys {Point = Point} (serialize_keys (derive_keys {Point = Point} sk addr_f))
        ≡ ok (derive_keys sk addr_f)
  unfolding deserialize_keys serialize_keys derive_keys
  deserialize_keys-serialize_keys sk addr_f canonical canonical' =
      rw (to_big_int-to_hex_32 sk ∙ ap ok (fr_mod_of_IsCanonical sk canonical))
        (rw (to_big_int-to_hex_32 addr_f ∙ ap ok (fr_mod_of_IsCanonical addr_f canonical')) refl)
