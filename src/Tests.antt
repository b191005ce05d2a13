-- ===== src/Tests.antt =====
-- The theorems at concrete inputs.
pub mod Disc
pub mod Sectors
pub mod Views
pub mod Trees
pub mod Volumes
pub mod Repairs
pub mod Recoveries
pub mod Closings
pub mod PrivateFiles
pub mod Adapters
pub mod Containers
