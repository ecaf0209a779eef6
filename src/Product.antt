-- ===== src/Product.antt =====
-- app/src/lib: the parts of the application beside the token client.
pub mod Amount
pub mod Retry
