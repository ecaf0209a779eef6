-- ===== src/Passport.antt =====
-- app/src/lib: the passport of the application, a credential with the eligibility proofs that it
-- makes, and what the product shows of it.
pub mod Numbers
pub mod Scope
pub mod Spent
pub mod Proof
pub mod Lifecycle
pub mod Settleable
pub mod Nullifier
pub mod Preflight
pub mod Steps
pub mod Progress
pub mod Rows
pub mod Offered
