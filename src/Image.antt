-- ===== src/Image.antt =====
-- src/acornfs/core/image.py: the mounted view of one image.
pub mod Session
pub mod Close
pub mod Padding
pub mod Names
pub mod Node
pub mod Index
pub mod Entries
pub mod Cache
pub mod Reads
pub mod Preflight
