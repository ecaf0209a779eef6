-- ===== src/Chain.antt =====
-- app/src/lib/confidentialToken/chain: the events and where they come from.
pub mod Events
pub mod EventSource
pub mod Resolve
pub mod Paging
pub mod Hybrid
pub mod Decode
pub mod IssuerRows
pub mod Issuer
