-- ===== src/Orchestrator.antt =====
-- internal/orchestrator/orchestrator.go: State has what it reads and changes, Call is callCarrier,
-- Collect the end of fanOut, Eligible, Launch and Quotes the rest; the others prove.
pub mod State
pub mod Call
pub mod Collect
pub mod Eligible
pub mod Launch
pub mod Quotes
pub mod Order
pub mod Dedup
pub mod Arrival
pub mod Lockout
pub mod Contained
pub mod Equipped
pub mod Total
pub mod Calls
pub mod Forever
pub mod Serving
pub mod Answers
pub mod Recorded
pub mod Channel
pub mod Vouched
pub mod Provenance
pub mod Origin
pub mod Cached
pub mod Contract
