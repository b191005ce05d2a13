-- ===== src/Fuse.antt =====
-- src/acornfs/fuse_adapter/operations.py: the FUSE operations on the handles of open files.
pub mod ReadAhead
pub mod Reads
pub mod Writes
