-- ===== src/Config.antt =====
-- The configurations of cloud providers: their encryption, the table they stand in, and its routes.
pub mod Encryption
pub mod Store
pub mod Routes
pub mod Cli
pub mod Hidden
pub mod Steps
pub mod Lost
mod Tests
