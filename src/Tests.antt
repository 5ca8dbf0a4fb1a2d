-- ===== src/Tests.antt =====
-- Concrete worlds, and the theorems at inputs that meet their hypotheses.
pub mod Worlds
pub mod Holding
pub mod Reserving
pub mod Payments
pub mod Screenings
pub mod Limits
pub mod Movies
pub mod Accounts
pub mod Gateway
pub mod Deletions
