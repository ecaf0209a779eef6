-- ===== src/Crypto.antt =====
-- The cryptographic helpers of app/src/lib/confidentialToken/crypto, one child for each file.
pub mod Domain
pub mod Field
pub mod Poseidon
pub mod Grumpkin
pub mod Keys
