-- ===== src/Command.antt =====
-- cmd/carrier-gateway/main.go: what the program reads from its environment, and how it puts the
-- gateway together.
pub mod Keys
pub mod Carriers
pub mod Assembly
pub mod Start
pub mod Program
pub mod Server
pub mod Scopes
pub mod Exit
pub mod Database
pub mod Purging
pub mod Timeouts
