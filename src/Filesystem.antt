-- ===== src/Filesystem.antt =====
-- src/filesystem.c: the ext2 volume. Volume has the state and the access to inodes, Groups the
-- bitmaps of inodes and blocks, Contents the blocks of a file, Directories the entries of a
-- directory, Files the creation and deletion of files.
pub mod Volume
pub mod Groups
pub mod Contents
pub mod Directories
pub mod Files
pub mod Growth
pub mod Inodes
pub mod RoundTrip
pub mod Bitmaps
pub mod Allocation
pub mod Overrun
pub mod Lookup
pub mod Install
mod Tests
mod LookupTests
