-- ===== src/Tests.antt =====
-- The theorems at concrete inputs, over the concrete curve of Grumpkin/Toy and a constant hash.
pub mod Fixtures
pub mod CryptoRuns
pub mod WitnessRuns
pub mod PartyRuns
pub mod ReplayRuns
pub mod ChainRuns
pub mod EngineRuns
pub mod ProductRuns
pub mod DisclosureRuns
pub mod FlowRuns
pub mod PassportRuns
pub mod FetchRuns
pub mod StoredRuns
pub mod IssuerRuns
