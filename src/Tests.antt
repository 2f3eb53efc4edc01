-- ===== src/Tests.antt =====
-- Runs of the modelled code on concrete inputs.
pub mod Pages
pub mod Latches
pub mod Values
pub mod Expressions
pub mod Headers
pub mod Queries
pub mod Disks
pub mod Pools
pub mod Fields
pub mod Stores
pub mod Plans
pub mod Indexes
pub mod Removals
