-- ===== src/Issuer.antt =====
-- issuer-service/lib, scripts/generate_prover_toml.js and circuits/lumengate: what the issuer makes of a
-- wallet, and the circuit that proves it.
pub mod Fields
pub mod Circuit
pub mod Prover
pub mod Notes
pub mod Texts
pub mod Made
pub mod Handed
pub mod Provable
