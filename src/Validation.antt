-- ===== src/Validation.antt =====
-- src/acornfs/core/validation.py: integrity findings, and the accounting of used and free extents.
pub mod Findings
pub mod Extents
pub mod Geometry
pub mod Walk
pub mod Report
