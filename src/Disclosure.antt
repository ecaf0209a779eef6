-- ===== src/Disclosure.antt =====
-- app/src/lib/confidentialToken/disclosure: types.ts and recipient.ts, and the modules of the holder
-- and of the verifier. Texts of JSON values are lists of code points; `randomScalar`'s value is an
-- argument.
pub mod Prove
pub mod Verify
pub mod Opened
pub mod Accepted
pub mod Parties
pub mod Sound
use lumengate.Prelude.{ℕ, Bool, List, ℤ}
use lumengate.Prelude.Result.{Result, ok, ◌>>=◌}
use Prim.Native.String.{String}
use lumengate.Crypto.Domain
use lumengate.Crypto.Field.{to_hex_32}
use lumengate.Crypto.Field.Numeral.{from_hex}
use lumengate.Crypto.Poseidon.{Poseidon, decrypt_with_domain}
use lumengate.Crypto.Grumpkin.{Curve, scalar_mul, ecdh, from_affine, point_coords}
use lumengate.Chain.Resolve.{EventRef}

abbrev pub disclose_recipient_circuit_id : String
disclose_recipient_circuit_id = "disclose_recipient"

abbrev pub disclose_sender_circuit_id : String
disclose_sender_circuit_id = "disclose_sender"

pub record JsonPoint : Type 0 where
  pub x : List ℕ
  pub y : List ℕ

pub record DisclosureRequest : Type 0 where
  pub p_r : JsonPoint
  pub nu : List ℕ

pub record DisclosureBundle : Type 0 where
  pub circuit_id : String
  pub ref_e : EventRef
  pub proof : List ℕ
  pub r_disc : JsonPoint
  pub v_tilde_disc : List ℕ

pub record RecipientKeys : Type 0 where
  pub r_r : ℤ
  pub p_r : JsonPoint

abbrev pub new_disclosure_request : RecipientKeys → ℤ → DisclosureRequest
new_disclosure_request keys fresh = record { p_r = keys.p_r; nu = to_hex_32 fresh }

-- What the code calls of `CircuitProver`: the Noir and Barretenberg libraries behind it.
pub record CircuitProver : Type 0 where
  pub prove : List (String × List ℕ) → Result (List ℕ)
  pub verify : List ℕ → List (List ℕ) → Result Bool
  pub verification_key : Result (List ℕ)

module _ {Point : Type 0} ⦃C : Curve Point⦄ where
  unfoldable pub point_to_json : Point → JsonPoint
  point_to_json p = let xy = point_coords p in record { x = to_hex_32 xy.0; y = to_hex_32 xy.1 }

  unfoldable pub point_from_json : JsonPoint → Result Point
  point_from_json p = do x ← from_hex p.x; y ← from_hex p.y; from_affine (x, y)

  module _ ⦃P : Poseidon⦄ where
    unfoldable pub decrypt_disclosure : ℤ → Point → ℤ → ℤ → Result ℤ
    decrypt_disclosure r_r r_disc v_tilde_disc nu = do
      s_disc_x ← ecdh r_r r_disc
      ok (decrypt_with_domain v_tilde_disc Domain.disclosure s_disc_x nu)

module _ (Point : Type 0) ⦃C : Curve Point⦄ where
  -- `generateRecipientKeys` is this on a fresh scalar.
  unfoldable pub recipient_keys_from_secret : ℤ → RecipientKeys
  unfolding point_to_json
  recipient_keys_from_secret r_r =
      let p_r : Point = scalar_mul r_r C.h in record { r_r = r_r; p_r = point_to_json p_r }
