-- ===== src/Mmb.antt =====
-- src/acornfs/core/mmb.py: MMB containers, their catalogue and the mount of their slots.
pub mod Layout
pub mod Slots
pub mod Evidence
