-- ===== src/Process/Refs.antt =====
-- The reference counts of kernel/src/process.rs, `Pipe::read_open` and `Pipe::write_open`, against
-- the descriptors that really name an end: `Totals` and `Places` count these, `Covers` is the
-- invariant, `Entries` follows the two steps that change a count, `Files`, `Sharing` and `Create` the
-- system calls, `Children` the calls on processes, `Calls` any sequence of them, and `Leaks` a path on which a count stays too high.
pub mod Totals
pub mod Places
pub mod Covers
pub mod Entries
pub mod Steps
pub mod Files
pub mod Lookups
pub mod Sharing
pub mod Create
pub mod Children
pub mod Calls
pub mod Leaks
