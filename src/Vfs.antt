-- ===== src/Vfs.antt =====
-- src/kernel/src/filesystem/vfs.cc: paths, inodes by path, and the tables of open files.
pub mod Path
pub mod Render
pub mod Canonical
pub mod Basename
pub mod Table
pub mod Open
pub mod Mount
pub mod Io
pub mod Lookup
mod Tests
