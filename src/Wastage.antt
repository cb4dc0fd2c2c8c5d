-- ===== src/Wastage.antt =====
-- Detection of wasted cloud resources: backend/app/wastage/ and the queries and routes over its
-- tables.
pub mod Finding
pub mod Pricing
pub mod Rules
pub mod Tables
pub mod Runner
pub mod Queries
pub mod Routes
mod Tests
