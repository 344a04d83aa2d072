-- ===== src/Fs/Laws.antt =====
-- What kernel/src/fs.rs guarantees: the allocator (`Span`), the transfer of a file's sectors
-- (`Sectors`), the lookup of names (`Lookup`) and whole operations (`WriteRead`).
pub mod Span
pub mod Sectors
pub mod Lookup
pub mod WriteFile
pub mod WriteRead
