-- ===== src/Fs.antt =====
-- question/kernel/fs.c and bitmap.c: the tables of the file system that are kept in memory.
pub mod State
pub mod Bitmap
pub mod Layout
pub mod Bytes
pub mod Volume
pub mod Alloc
pub mod Blocks
pub mod Inodes
pub mod Directories
pub mod Paths
pub mod Files
pub mod Descriptors
pub mod Directory
