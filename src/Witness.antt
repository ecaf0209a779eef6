-- ===== src/Witness.antt =====
-- The witness builders of app/src/lib/confidentialToken/witness, one child for each circuit.
pub mod Common
pub mod Register
pub mod Withdraw
pub mod Transfer
pub mod Disclose
