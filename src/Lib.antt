-- ===== src/Lib.antt =====
-- A model of AcornFS, the part of Nautilus AcornFS that mounts Acorn disc images, with the theorems that
-- make it correct.
--
-- Parts of the program, and the files that model them:
--
-- Transaction models src/acornfs/core/transaction.py. `SectorTransaction` keeps before-images of the sectors
-- that an operation may write, in a list; `restore` writes them back, latest first. The restoration of a
-- `FileTransaction` runs in chunks, on fuel of one more than the length of the copy, and each chunk takes
-- at least one byte. What Oaknut answers about a path, and its free-space map, are parameters.
-- Image models src/acornfs/core/image.py. `Image.Session` is the protocol of `_run_atomic`: guards, a
-- transaction, the mutation, the flush, the commit, and the rollback of whatever raised. A state carries
-- the mapped bytes, the index as an opaque memory, and the flags of the session; the fault injector and
-- every call of the system or of Oaknut are fields of `Host`. `Image.Cache` is the bounded cache of whole
-- files, `Image.Reads` the reads by ranges, `Image.Preflight` the check for free space before a file
-- grows, `Image.Names` the mapping between Acorn names and the names that Linux shows, and
-- `Image.Index` the index of the tree with its lookups, additions, removals and renames, and
-- `Image.Entries` the operations that create and remove its entries. The walk to the root there runs on
-- fuel, the number of steps that are allowed.
-- `Image.Close` is the close of a session, with the end of its checkpoint, and `Image.Padding` the extension
-- of a data file that lacks its reserved tail.
-- Validation models src/acornfs/core/validation.py. Findings, the decision whether an image is safe to write,
-- and the checks of the geometry and of extents for overlaps, double use and gaps. `Validation.Walk` is the
-- traversal of the directories, on fuel of one more than the depth that the budget allows, which the
-- checkpoints of the budget cannot exceed; `Validation.Report` is the whole validation of a mounted disc, and
-- `Validation.Report.Images` that of a selected image. What Oaknut reads from the disc is a parameter.
-- Repair models src/acornfs/core/repair.py. The plan groups the findings by action; `Repair.Apply` is its
-- application, a sequence of calls that the host answers, with the audit that is written between them.
-- Recovery models src/acornfs/recovery.py. The creation and the completion of a checkpoint, and in
-- `Recovery.Restore` its recovery; a call may also be the last of the process, so that the states behind a
-- stopped run are those that a crash between two calls can leave.
-- SafePaths models src/acornfs/safe_paths.py, the loop that writes a private file, on fuel, and its atomic
-- replacement.
-- Dfs models src/acornfs/core/dfs.py, two sides of a disc in one namespace, and Mmb models src/acornfs/core/mmb.py,
-- the catalogue of a container and the mounts of its slots. Both forward to the mounts of `Mounting`.
-- Beebscsi models src/acornfs/core/beebscsi.py, descriptors and the discovery of pairs of files.
-- Budget models src/acornfs/operations.py, the budget of work on untrusted data.
-- Fuse models src/acornfs/fuse_adapter/operations.py, reads with read-ahead buffers, and the buffers of what
-- is written, which call the operations of an image. The eviction loop runs on fuel of one more than the
-- number of listed buffers; each round takes one off the list.
--
-- Prelude holds what these share: Python's lists, texts, dictionaries, sorting and decimal numbers over the
-- native numbers, exceptions as `Result`, and methods that change an object and may raise as `Exec`. Tests
-- and Image.Session.Tests apply the theorems to concrete inputs.
--
-- Offsets, sizes and sector numbers are natural numbers, since they come from unsigned fields. Messages for
-- the user are left out, and exceptions are told apart by their class. Not modelled are the file and mount
-- operations of the system, locking, the graphical extension, the command line and external programs, the
-- transfer of single files, the detection of formats, the retention of old state and the registry of mounts.
pub mod Prelude
pub mod Transaction
pub mod Validation
pub mod Image
pub mod Mounting
pub mod Dfs
pub mod Mmb
pub mod Budget
pub mod Fuse
pub mod Beebscsi
pub mod Tests
pub mod Repair
pub mod Recovery
pub mod SafePaths
