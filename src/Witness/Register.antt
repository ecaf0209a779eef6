-- ===== src/Witness/Register.antt =====
-- witness/register.ts.
use lumengate.Prelude.{[], ◌∷◌, ◌++◌}
use lumengate.Crypto.Grumpkin.{Curve}
use lumengate.Crypto.Keys.{KeyPair}
use lumengate.Witness.Common.{NoirInputs, field_in, point_in}

pub record RegisterWitness (Point : Type 0) : Type 0 where
  pub inputs : NoirInputs
  pub payload_y : Point
  pub payload_pvk : Point

module _ {Point : Type 0} ⦃C : Curve Point⦄ where
  unfoldable pub build_register_witness : KeyPair Point → RegisterWitness Point
  build_register_witness keys = record {
    inputs =
        ("sk", field_in keys.sk) ∷ point_in "y" keys.y
        ++ point_in "pvk" keys.pvk
        ++ ("addr_f", field_in keys.addr_f) ∷ [];
    payload_y = keys.y;
    payload_pvk = keys.pvk;
  }
