-- ===== src/Wastage/Rules.antt =====
-- The Azure rules: backend/app/wastage/rules/azure.py.
pub mod Helpers
pub mod Disks
pub mod Network
pub mod Compute
pub mod Storage
pub mod Catalog
pub mod Describes
pub mod Flags
