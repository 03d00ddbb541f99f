-- ===== src/Object.antt =====
-- src/object: the object files, archives and executables that the compiler writes.
pub mod Bytes
pub mod Slices
pub mod Elf64
pub mod Sections
pub mod Layout
pub mod Headers
pub mod Files
pub mod Names
pub mod Metadata
pub mod Escapes
pub mod Dwarf
pub mod Relocatable
mod Examples
