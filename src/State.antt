-- ===== src/State.antt =====
-- app/src/lib/confidentialToken/state: the reconstruction of an account's openings from events.
pub mod Types
pub mod Stored
pub mod Apply
pub mod Ledger
pub mod Engine
